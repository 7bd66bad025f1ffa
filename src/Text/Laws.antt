-- ===== src/Text/Laws.antt =====
-- Laws of trimming, splitting and joining.
use dcr_sdk.Common.{
  ℕ, ◌≡◌, ◌≢◌, refl, ◌==◌, ap, ◌∙◌, inl, inr, false, List, [], ◌∷◌, ◌++◌, Bytes, All, arith,
  Bool-cases,
}
use dcr_sdk.Text.{is_space, trim_left, trim_right, trim_space, prepend, split, join}

-- No white space at either end.
abbrev pub IsTrimmed : Bytes → Type 0
IsTrimmed s = trim_space s ≡ s

abbrev pub Lacks : ℕ → Bytes → Type 0
Lacks sep = All (λ c. c ≢ sep)

-- No white space at the left end.
abbrev StartsTrimmed : Bytes → Type 0
StartsTrimmed [] = Unit {0}
StartsTrimmed (c ∷ s) = is_space c ≡ false

trim_left-StartsTrimmed : (s : Bytes) → StartsTrimmed (trim_left s)
unfolding trim_left
trim_left-StartsTrimmed [] = tt
trim_left-StartsTrimmed (c ∷ s) = ground (arith, trim_left-StartsTrimmed s)

trim_left_of_StartsTrimmed : (s : Bytes) → StartsTrimmed s → trim_left s ≡ s
unfolding trim_left
trim_left_of_StartsTrimmed [] h = refl
trim_left_of_StartsTrimmed (c ∷ s) h = rw h

trim_right-StartsTrimmed : (s : Bytes) → StartsTrimmed s → StartsTrimmed (trim_right s)
unfolding trim_right
trim_right-StartsTrimmed [] h = tt
trim_right-StartsTrimmed (c ∷ s) h = ground arith

trim_right_idem : (s : Bytes) → trim_right (trim_right s) ≡ trim_right s
unfolding trim_right
trim_right_idem [] = refl
trim_right_idem (c ∷ s) = ground (arith, trim_right_idem s)

-- Trimming a trimmed text changes nothing.
pub trim_space_idem : (s : Bytes) → IsTrimmed (trim_space s)
unfolding trim_space
trim_space_idem s =
    ap trim_right (
      trim_left_of_StartsTrimmed _
        (trim_right-StartsTrimmed (trim_left s) (trim_left-StartsTrimmed s)))
    ∙ trim_right_idem (trim_left s)

Lacks-trim_left : (sep : ℕ) (s : Bytes) → Lacks sep s → Lacks sep (trim_left s)
unfolding trim_left
Lacks-trim_left sep [] h = tt
Lacks-trim_left sep (c ∷ s) h = ground (arith, Lacks-trim_left sep s h.1)

Lacks-trim_right : (sep : ℕ) (s : Bytes) → Lacks sep s → Lacks sep (trim_right s)
unfolding trim_right
Lacks-trim_right sep [] h = tt
Lacks-trim_right sep (c ∷ s) h = ground (arith, Lacks-trim_right sep s h.1)

pub Lacks-trim_space : (sep : ℕ) (s : Bytes) → Lacks sep s → Lacks sep (trim_space s)
unfolding trim_space
Lacks-trim_space sep s h = Lacks-trim_right sep (trim_left s) (Lacks-trim_left sep s h)

prepend-Lacks :
    (sep c : ℕ) (ps : List Bytes) → c ≢ sep → All (Lacks sep) ps → All (Lacks sep) (prepend c ps)
prepend-Lacks sep c [] ne h = ((ne, tt), tt)
prepend-Lacks sep c (p ∷ ps) ne (hp, hps) = ((ne, hp), hps)

-- The parts of a split do not hold the separator.
pub split-Lacks : (sep : ℕ) (s : Bytes) → All (Lacks sep) (split sep s)
unfolding split
split-Lacks sep [] = (tt, tt)
split-Lacks sep (c ∷ s) = elim (Bool-cases (c == sep)) [
  | inl same ↦ rw same (tt, split-Lacks sep s)
  | inr other ↦ rw other (prepend-Lacks sep c (split sep s) (ground arith) (split-Lacks sep s))
]

-- A text with no separator, before one or at the end.
split-append_sep :
    (sep : ℕ) (p s : Bytes) → Lacks sep p → split sep (p ++ sep ∷ s) ≡ p ∷ split sep s
unfolding split
split-append_sep sep [] s h = ground arith
split-append_sep sep (c ∷ p) s (ne, h) = ground (arith, split-append_sep sep p s h)

split_whole : (sep : ℕ) (p : Bytes) → Lacks sep p → split sep p ≡ p ∷ []
unfolding split
split_whole sep [] h = refl
split_whole sep (c ∷ p) (ne, h) = ground (arith, split_whole sep p h)

-- Splitting a join of at least one part gives the parts back, if none has the separator.
pub split-join :
    (sep : ℕ) (p : Bytes) (ps : List Bytes)
    → All (Lacks sep) (p ∷ ps)
    → split sep (join sep (p ∷ ps)) ≡ p ∷ ps
unfolding join
split-join sep p [] (h, hs) = split_whole sep p h
split-join sep p (q ∷ ps) (h, hs) =
    split-append_sep sep p (join sep (q ∷ ps)) h ∙ ap (◌∷◌ p) (split-join sep q ps hs)
