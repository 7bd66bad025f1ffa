-- ===== src/Contract.antt =====
-- pkg/contract: the frames that the RPC transport carries, and the pooled objects that hold them.
pub mod Io
pub mod Slice
pub mod Wire
pub mod Register
pub mod Status
pub mod Request
pub mod Response
pub mod Frames
pub mod RoundTrip
pub mod Robust
pub mod Pools
pub mod Context
mod Examples
