-- ===== src/Client/Sharded.antt =====
-- The clients, their groups, and the choice of a connection: pkg/client/shardedClient.go.
--
-- A call returns `none` where the code panics: with no group, no connection, or no counters for the
-- request, whose number is one of `Target`, `Report` and `Touch`. Each pick takes its own value of the atomic counter, so concurrent calls are calls in
-- some order.
use dcr_sdk.Common.{
  ltb, ◌-◌, ℕ, zero, suc, ◌+◌, ◌%◌, ◌^◌, ◌==◌, Option, none, some, List, [], ◌∷◌, Bytes, Result,
  length, get_elem?, if◌then◌else◌,
}
use dcr_sdk.Common.Int.{ℤ, pos, negsuc}
use dcr_sdk.Config.{Configuration}
use dcr_sdk.Contract.Request.{Request}
use dcr_sdk.Client.Unary.{Metrics, Answer, CallError, Outcome, do_unary}

-- The settings of a connection's `fastrpc.Client`.
pub record RpcSettings : Type 0 where
  pub addr : Bytes
  pub read_timeout : ℤ
  pub write_timeout : ℤ
  pub max_pending_requests : ℤ
  pub write_buffer_size : ℤ
  pub read_buffer_size : ℤ

-- `client`; `conn` is the identity of the connection that is served on, and `pending` the number of
-- requests in flight on it.
pub record Client : Type 0 where
  pub max_request_duration : ℤ
  pub settings : RpcSettings
  pub conn_dials : ℕ
  pub conn : Option ℕ
  pub pending : ℕ

-- `clientsGroup`, with the counters that its clients share, by request number.
pub record Group : Type 0 where
  pub round_robin : ℕ
  pub clients : List Client
  pub metric_groups : List (Option Metrics)

-- `ShardedClient`, with the package's pool of requests.
pub record ShardedClient : Type 0 where
  pub config : Configuration
  pub round_robin : ℕ
  pub groups : List Group
  pub pool : List Request

abbrev pub set {ℓ} : {A : Type ℓ} → List A → ℕ → A → List A
set [] i v = []
set (x ∷ xs) zero v = v ∷ xs
set (x ∷ xs) (suc i) v = x ∷ set xs i v

infixl 5 ◌>>=◌
abbrev pub ◌>>=◌ {ℓ κ} : {A : Type ℓ} {B : Type κ} → Option A → (A → Option B) → Option B
none >>= f = none
some a >>= f = f a

-- The index of `getGroup` and of `getClient`, from the counter before the call: the new counter, a
-- `uint64`, modulo the length. A length of 0 panics.
unfoldable pub pick : ℕ → ℕ → Option ℕ
pick counter len = if len == 0 then none else some ((counter + 1) % 2 ^ 64 % len)

abbrev pub next_counter : ℕ → ℕ
next_counter counter = (counter + 1) % 2 ^ 64

-- The group, its index and the client after `getGroup`.
unfoldable pub get_group : ShardedClient → Option (ℕ × Group)
unfolding pick
get_group sc = do i ← pick sc.round_robin (length sc.groups); g ← get_elem? sc.groups i; some (i, g)

unfoldable pub get_client : Group → Option (ℕ × Client)
unfolding pick
get_client g = do j ← pick g.round_robin (length g.clients); c ← get_elem? g.clients j; some (j, c)

-- An entry of the array of counters; a nil entry panics when it is used.
abbrev pub metrics_of : List (Option Metrics) → ℕ → Option Metrics
metrics_of groups reqn = get_elem? groups reqn >>= λ m. m

abbrev pub Reply : Type 0 → Type 0
Reply A = ℕ × Result CallError A

module _ {A : Type 0} where
  -- The client after a connection of its group `i`, which was `g`, was asked.
  abbrev pub after_call : ShardedClient → ℕ → Group → ℕ → Outcome A → ShardedClient
  after_call sc i g reqn out =
      let g' = record g {
        round_robin = next_counter g.round_robin;
        metric_groups = set g.metric_groups reqn (some out.metrics);
      } in
      record sc {
        round_robin = next_counter sc.round_robin;
        groups = set sc.groups i g';
        pool = out.pool;
      }

  -- `sc.getGroup().getClient().doUnary(…)`: the connection `j` of group `i` is asked.
  unfoldable pub call :
      ShardedClient
      → ℕ
      → Option Bytes
      → (Bytes → Option A)
      → (ℕ → ℕ → Request → Answer)
      → ℕ
      → Option (ShardedClient × Reply A)
  unfolding get_group get_client
  call sc reqn raw unmarshal do_deadline choice = do
    (i, g) ← get_group sc
    (j, c) ← get_client g
    m ← metrics_of g.metric_groups reqn
    let out = do_unary reqn raw unmarshal (do_deadline i j) choice sc.pool m
    some (after_call sc i g reqn out, (out.status, out.result))

-- `PendingRequests` and `Reconnects`: sums over all connections.
unfoldable pub sum_clients : (Client → ℕ) → List Client → ℕ
sum_clients f [] = 0
sum_clients f (c ∷ clients) = f c + sum_clients f clients

unfoldable pub sum_groups : (Client → ℕ) → List Group → ℕ
unfolding sum_clients
sum_groups f [] = 0
sum_groups f (g ∷ groups) = sum_clients f g.clients + sum_groups f groups

-- A 64-bit number read as a Go `int`, in two's complement.
abbrev pub int_of : ℕ → ℤ
int_of n = let w = n % 2 ^ 64 in if ltb w (2 ^ 63) then pos w else negsuc (2 ^ 64 - 1 - w)

-- The sum of `int`s wraps around, so it is the sum in ℕ, reduced once at the end.
unfoldable pub pending_requests : ShardedClient → ℤ
unfolding sum_groups
pending_requests sc = int_of (sum_groups (λ c. c.pending) sc.groups)

unfoldable pub reconnects : ShardedClient → ℤ
unfolding sum_groups
reconnects sc = int_of (sum_groups (λ c. c.conn_dials) sc.groups)
