-- ===== src/Common/Strings.antt =====
-- Comparing Go strings.
use mathlib.Core.Path.{◌≡◌, refl}
use mathlib.Core.Logic.{◌≢◌, ◌↔◌}
use mathlib.Core.Bool.{Bool, true, false, ◌&&◌, ◌||◌}
use mathlib.Core.List.{[], ◌∷◌}
use native.Mathlib.Omega.{arith}
use dcr_sdk.Common.Tests.{◌==◌, ltb}
use dcr_sdk.Common.Lists.{Bytes}

-- Equality of Go strings.
unfoldable pub bytes_eq : Bytes → Bytes → Bool
bytes_eq [] [] = true
bytes_eq (c ∷ s) (d ∷ t) = c == d && bytes_eq s t
bytes_eq _ _ = false

pub bytes_eq_iff : (s t : Bytes) → (bytes_eq s t ≡ true) ↔ (s ≡ t)
unfolding bytes_eq
bytes_eq_iff [] [] = ground arith
bytes_eq_iff [] (d ∷ t) = ground arith
bytes_eq_iff (c ∷ s) [] = ground arith
bytes_eq_iff (c ∷ s) (d ∷ t) = ground (arith, bytes_eq_iff s t)

-- The order of Go strings, by bytes.
unfoldable pub bytes_ltb : Bytes → Bytes → Bool
bytes_ltb [] [] = false
bytes_ltb [] (d ∷ t) = true
bytes_ltb (c ∷ s) [] = false
bytes_ltb (c ∷ s) (d ∷ t) = ltb c d || c == d && bytes_ltb s t

pub bytes_ltb_irrefl : (s : Bytes) → bytes_ltb s s ≡ false
unfolding bytes_ltb
bytes_ltb_irrefl [] = refl
bytes_ltb_irrefl (c ∷ s) = ground (arith, bytes_ltb_irrefl s)

pub bytes_ltb_trans :
    (s t u : Bytes) → bytes_ltb s t ≡ true → bytes_ltb t u ≡ true → bytes_ltb s u ≡ true
unfolding bytes_ltb
bytes_ltb_trans [] [] u h g = cc
bytes_ltb_trans [] (d ∷ t) [] h g = cc
bytes_ltb_trans [] (d ∷ t) (e ∷ u) h g = refl
bytes_ltb_trans (c ∷ s) [] u h g = cc
bytes_ltb_trans (c ∷ s) (d ∷ t) [] h g = cc
bytes_ltb_trans (c ∷ s) (d ∷ t) (e ∷ u) h g = ground (arith, bytes_ltb_trans s t u)

-- Two texts neither of which comes first are equal.
pub bytes_ltb-connected : (s t : Bytes) → bytes_ltb s t ≡ false → s ≢ t → bytes_ltb t s ≡ true
unfolding bytes_ltb
bytes_ltb-connected [] [] h n = absurd (n refl)
bytes_ltb-connected [] (d ∷ t) h n = cc
bytes_ltb-connected (c ∷ s) [] h n = refl
bytes_ltb-connected (c ∷ s) (d ∷ t) h n = ground (arith, bytes_ltb-connected s t)
