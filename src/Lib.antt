-- ===== src/Lib.antt =====
-- dcr-sdk, the Go client of the DCR cloud: a model of its core, and what is proved of it.
--
-- A partner's program makes a client (sdk.go, pkg/client) and calls `Target`, `Report` and `Touch` on
-- it. Each call stamps onto the request whom it bills, picks a connection in turn, marshals the
-- request into a pooled object and hands it to fastrpc, which writes it in the frames of pkg/contract.
-- Beside the calls, a dialer spreads the connections over the addresses of a host, and a renewer
-- replaces the client's certificate before it ends and saves the new one.
--
--   Common    native numbers, lists, results, texts, `int` by sign, and round-robin arithmetic.
--   Contract  pkg/contract: requests, responses and their pools (request.go, response.go), the
--             sized values of a frame (common.go, in Wire), request numbers (const.go), the
--             context of a server (requestCtx.go, in Context), and the status codes of gen/base1.
--             `bufio` is in Io, and Go's slices, whose arrays outlive a reset, in Slice.
--   Messages  the messages of gen/base1 that the client reads or writes.
--   Payer     pkg/client/payer.go, and `applyMatchRulePayers` and `applyReportRulePayers` of
--             pkg/client/shardedClient.go, which are one loop here over either kind of rule.
--   Text      `strings.TrimSpace`, `Split` and `Join`, and `sort.Strings`.
--   Config    `normalizeConfiguration` of pkg/client/shardedClient.go and `resolveServerName` of
--             pkg/client/mtls.go, with `net.SplitHostPort`.
--   Client    pkg/client/client.go (`doUnary`, `countError`, in Unary), and of
--             pkg/client/shardedClient.go the round robin (Sharded), the three calls (Requests),
--             `newClient` (Build) and `Reconnect` (in Reconnect).
--   Certs     `certCheck` of pkg/client/mtls.go, `Update` of pkg/client/certprovider.go, its `Fetch`
--             (in Fetch; Timed has its requests, waits and deadline), and pkg/client/autorenew.go
--             (Renewal).
--   Files     pkg/client/savefiles.go.
--   Mtls      `newWithMTLS` of pkg/client/mtls.go, and the CA chain that it carries.
--   Auth      pkg/serverauth/auth.go: connections with an identity (in Auth), the TLS configuration
--             that stores it (Handshake), and the checks of a client's certificate.
--   Cloud     the handlers of internal/testcloud/server.go, the cloud of the repository's tests, and in
--             Serve and Exchange a request and its response over the frames; its start and its end,
--             with the listener as an address and a flag, are in Lifecycle, and the text of a
--             tracking id, which is an argument of the handlers, in Tracking.
--   Dialer    pkg/client/dnsDialer.go; `init` and `resolve` are in Resolve.
--   EndToEnd  the client and the cloud together.
--   TestPki   internal/testcloud/certs.go, the certificates of the repository's tests, with the clients
--             that are made of them.
--   TouchCheck, TestCloud, ClientExample, ProtoVerify  the commands: cmd/touch-check/main.go,
--             cmd/test-cloud/main.go, cmd/client-example/main.go and cmd/proto-verify/main.go.
--
-- State is passed explicitly: an operation takes the state and returns the new one with its result or
-- error. A call that would panic returns `none`. Bytes and texts are lists of numbers, a UUID is the
-- number that its bytes spell, times are in nanoseconds. The counters of the round robin wrap at 64
-- bits; lengths in a frame are 32 bits; the counts of the metrics do not wrap. A map is an association
-- list, in the order in which an iteration meets its keys.
--
-- Loops are structural recursion over the list that they go through, so there is no fuel. `Fetch`
-- and `run` loop for as long as the CA and the process last: they go over the list of what their
-- rounds meet, and `Fetch` returns `none` where that list ends before it does; over time it takes a
-- number of rounds, for which those are enough whose poll intervals reach the deadline, six for a
-- renewal. So does the loop in which `reconnect` waits; one round more than fit into the wait are
-- enough for it.
--
-- What other code does is an argument: fastrpc's `DoDeadline`, any function from a request to an
-- answer, of which EndToEnd supposes that it carries the frames (`IsCarried`); github.com/google/uuid,
-- a record with the laws that stamping relies on; protobuf, JSON and certificate parsing and
-- verification, with OCSP; the resolver's answers and the parsing and printing of IPs; the faults of a
-- file system; the choice that `sync.Pool` makes. Concurrent calls are calls in some order, each with
-- its own value of the counters.
--
-- Not modelled: TLS and connections themselves, the parsing of flags, what the commands print, logging,
-- the text of error messages, the ticker of the dialer, and `IsValidTrackingID`, which only calls a
-- package that is outside the repository.
pub mod Common
pub mod Contract
pub mod Text
pub mod Messages
pub mod Payer
pub mod Config
pub mod Certs
pub mod Files
pub mod Auth
pub mod Cloud
pub mod Dialer
pub mod EndToEnd
pub mod Mtls
pub mod TouchCheck
pub mod TestPki
pub mod TestCloud
pub mod ClientExample
pub mod ProtoVerify
pub mod Client
