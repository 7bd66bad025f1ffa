-- ===== src/Client.antt =====
-- pkg/client: a call on one connection (client.go) and the client over all of them
-- (shardedClient.go).
pub mod Unary
pub mod Sharded
pub mod Build
pub mod Requests
pub mod Accounting
pub mod Delivery
pub mod Usable
pub mod Runs
pub mod Billing
pub mod Rotation
pub mod Reconnect
pub mod Closing
mod Examples
