-- ===== src/Common/Rotation.antt =====
-- A counter taken modulo a length goes round: as many values in a row as the length hit each place
-- once.
use Prim.Native.Nat.{ℕ, ◌+◌, ◌-◌, ◌%◌, ◌<◌}
use mathlib.Core.Path.{◌≡◌, refl, sym, ap, ◌∙◌}
use mathlib.Core.Logic.{◌⊎◌, inl, inr}
use native.Mathlib.Omega.{arith}
use native.Mathlib.Decide.{dec_le}
use native.Mathlib.Nat.{mod-add-mod, mod-eq_of_lt, mod-lt, add-mod_right}

hit_now : (c len i j : ℕ) → i < len → c % len + j ≡ i → (c + j) % len ≡ i
hit_now c len i j h e = sym (mod-add-mod c len j) ∙ ap (λ n. n % len) e ∙ mod-eq_of_lt h

hit_later : (c len i j : ℕ) → i < len → c % len + j ≡ i + len → (c + j) % len ≡ i
hit_later c len i j h e =
    sym (mod-add-mod c len j) ∙ ap (λ n. n % len) e ∙ add-mod_right i len ∙ mod-eq_of_lt h

-- Each place is hit within a round.
pub rotation_hits : (c len i : ℕ) → i < len → (j : ℕ) × (j < len) × ((c + j) % len ≡ i)
rotation_hits c len i h =
    let small : c % len < len = mod-lt c (omega arith) in
    elim (dec_le (c % len) i) [
      | yes le ↦ (i - c % len, omega arith, hit_now c len i (i - c % len) h (omega arith))
      | no gt ↦
          (i + len - c % len, omega arith, hit_later c len i (i + len - c % len) h (omega arith))
    ]

round_position :
    (c len j : ℕ)
    → j < len
    → (((c + j) % len ≡ c % len + j) × (c % len + j < len)) ⊎ ((c + j) % len + len ≡ c % len + j)
round_position c len j h =
    let small : c % len < len = mod-lt c (omega arith) in
    elim (dec_le len (c % len + j)) [
      | yes le ↦
          inr (omega (arith, hit_later c len (c % len + j - len) j (omega arith) (omega arith)))
      | no gt ↦ inl (hit_now c len (c % len + j) j (omega arith) refl, omega arith)
    ]

-- And no place is hit twice within a round.
pub rotation_distinct : (c len j k : ℕ) → j < len → k < len → (c + j) % len ≡ (c + k) % len → j ≡ k
rotation_distinct c len j k hj hk e =
    let small : c % len < len = mod-lt c (omega arith) in
    let small_j : (c + j) % len < len = mod-lt (c + j) (omega arith) in
    omega (arith, round_position c len j hj, round_position c len k hk)
