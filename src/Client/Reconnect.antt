-- ===== src/Client/Reconnect.antt =====
-- `Reconnect` of pkg/client/shardedClient.go, with `reconnect` and `onConnDialed` of
-- pkg/client/client.go.
--
-- What happens beside a `reconnect` is an argument: what each round of its loop reads, and which
-- connections fastrpc dials before it ends. Times are in nanoseconds.
use dcr_sdk.Common.{
  ℕ, ◌+◌, ◌%◌, ◌^◌, ◌==◌, ltb, Bool, ◌&&◌, Option, none, some, List, [], ◌∷◌, ◌++◌, if◌then◌else◌,
}
use dcr_sdk.Common.Int.{ℤ, rounds}
use dcr_sdk.Client.Sharded.{Client, Group, ShardedClient, ◌>>=◌}

-- `onConnDialed`, for the identity of the connection.
unfoldable pub on_conn_dialed : Client → ℕ → Client
on_conn_dialed c conn = record c { conn_dials = (c.conn_dials + 1) % 2 ^ 64; conn = some conn }

unfoldable pub dialled_all : Client → List ℕ → Client
unfolding on_conn_dialed
dialled_all c [] = c
dialled_all c (conn ∷ conns) = dialled_all (on_conn_dialed c conn) conns

-- `time.Sleep(5 * time.Millisecond)`
abbrev pub poll_interval : ℕ
poll_interval = 5_000_000

-- A round of the loop: the pending requests that it reads, and when.
pub record Poll : Type 0 where
  pub pending : ℕ
  pub now : ℕ

-- What happens beside the `reconnect` of a client: its start, the rounds that its loop could go, and
-- the connections that are dialled from then on until it has closed the one that it loaded.
pub record Course : Type 0 where
  pub started : ℕ
  pub polls : List Poll
  pub meanwhile : List ℕ

-- The loop that waits: `none` where the rounds end before it does.
unfoldable pub wait_idle : ℕ → List Poll → Option (Unit {0})
wait_idle deadline [] = none
wait_idle deadline (poll ∷ polls) =
    let rest = wait_idle deadline polls in
    if ltb 0 poll.pending && ltb poll.now deadline then rest else some tt

-- `CompareAndSwap(conn, nil)`
unfoldable pub clear_conn : Client → ℕ → Client
clear_conn c conn = elim c.conn [
  | none ↦ c
  | some held ↦ if held == conn then record c { conn = none } else c
]

-- `reconnect`, for the connection that it loads: the client, and the connections that it closed.
unfoldable pub reconnect_held : Bool → ℤ → Client → Course → Option ℕ → Option (Client × List ℕ)
reconnect_held force wait c course none = some (dialled_all c course.meanwhile, [])
reconnect_held force wait c course (some conn) =
    (if force then some tt else wait_idle (course.started + rounds wait) course.polls) >>= λ idle.
    some (clear_conn (dialled_all c course.meanwhile) conn, conn ∷ [])

unfoldable pub reconnect : Bool → ℤ → Client → Course → Option (Client × List ℕ)
reconnect force wait c course = reconnect_held force wait c course c.conn

-- The clients of a group from the `j`-th on, each beside the others.
unfoldable pub reconnect_clients :
    Bool → ℤ → (ℕ → Course) → ℕ → List Client → Option (List Client × List ℕ)
reconnect_clients force wait courses j [] = some ([], [])
reconnect_clients force wait courses j (c ∷ clients) =
    reconnect force wait c (courses j) >>= λ done.
    reconnect_clients force wait courses (j + 1) clients >>= λ rest.
    some (done.0 ∷ rest.0, done.1 ++ rest.1)

unfoldable pub reconnect_groups :
    Bool → ℤ → (ℕ → ℕ → Course) → ℕ → List Group → Option (List Group × List ℕ)
reconnect_groups force wait courses i [] = some ([], [])
reconnect_groups force wait courses i (g ∷ groups) =
    reconnect_clients force wait (courses i) 0 g.clients >>= λ done.
    reconnect_groups force wait courses (i + 1) groups >>= λ rest.
    some (record g { clients = done.0 } ∷ rest.0, done.1 ++ rest.1)

-- `Reconnect`, with the course of each connection of each group.
unfoldable pub reconnect_all :
    Bool → (ℕ → ℕ → Course) → ShardedClient → Option (ShardedClient × List ℕ)
reconnect_all force courses sc =
    reconnect_groups force sc.config.max_request_duration courses 0 sc.groups >>= λ done.
    some (record sc { groups = done.0 }, done.1)
