-- ===== src/Client/Rotation.antt =====
-- Which groups the calls of a client ask, one after another.
use dcr_sdk.Common.{ℕ, zero, suc, ◌+◌, ◌%◌, ◌^◌, ◌<◌, ◌≡◌, refl, some, length, get_elem?, arith}
use dcr_sdk.Common.Rotation.{rotation_hits}
use dcr_sdk.Client.Sharded.{Group, ShardedClient, pick, next_counter, get_group}
use dcr_sdk.Client.Usable.{get_elem?-some}

-- The client after `j` calls of `getGroup`.
unfoldable pub after_groups : ShardedClient → ℕ → ShardedClient
after_groups sc zero = sc
after_groups sc (suc j) =
    let sc' = after_groups sc j in record sc' { round_robin = next_counter sc'.round_robin }

after_groups_lem :
    (sc : ShardedClient) (j : ℕ)
    → sc.round_robin + j < 2 ^ 64
    → after_groups sc j ≡ record sc { round_robin = sc.round_robin + j }
unfolding after_groups
after_groups_lem sc zero h = ground arith
after_groups_lem sc (suc j) h = ground (arith, after_groups_lem sc j)

pick_at :
    (c j len i : ℕ)
    → i < len
    → c + j + 1 < 2 ^ 64
    → (c + 1 + j) % len ≡ i
    → pick (c + j) len ≡ some i
unfolding pick
pick_at c j len i small room e =
    let exact : (c + j + 1) % 2 ^ 64 ≡ c + 1 + j = omega arith in rw (exact, e) (ground arith)

-- Among as many calls in a row as there are groups, while the counter does not pass its 64 bits, each
-- group of the client is asked once: for each place there is a call that gets the group there.
pub groups_round :
    (sc : ShardedClient) (i : ℕ)
    → sc.round_robin + length sc.groups < 2 ^ 64
    → i < length sc.groups
    → (j : ℕ) × (j < length sc.groups)
      × ((g : Group) × (get_elem? sc.groups i ≡ some g)
          × (get_group (after_groups sc j) ≡ some (i, g)))
unfolding get_group
groups_round sc i room h =
    let (j, small, hit) = rotation_hits (sc.round_robin + 1) (length sc.groups) i h in
    let (g, found) = get_elem?-some sc.groups i h in
    let picked : pick (sc.round_robin + j) (length sc.groups) ≡ some i =
      pick_at sc.round_robin j (length sc.groups) i h (omega arith) hit in
    (j, small, (g, found, rw (after_groups_lem sc j (omega arith)) (rw (picked, found) refl)))
