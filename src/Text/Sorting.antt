-- ===== src/Text/Sorting.antt =====
-- `sort.Strings`. However it sorts, the result is the one list in order of the same texts.
use dcr_sdk.Common.{
  ◌≡◌, ◌≢◌, refl, sym, ap, subst, ◌∙◌, ◌↔◌, ◌⊎◌, inl, inr, Bool-cases, true, List, [], ◌∷◌, Bytes,
  All, Any, if◌then◌else◌, arith,
}
use dcr_sdk.Common.Strings.{bytes_ltb, bytes_ltb_irrefl, bytes_ltb_trans, bytes_ltb-connected}

unfoldable pub insert : Bytes → List Bytes → List Bytes
insert a [] = a ∷ []
insert a (b ∷ bs) = let rest = insert a bs in if bytes_ltb b a then b ∷ rest else a ∷ b ∷ bs

unfoldable pub sort_strings : List Bytes → List Bytes
unfolding insert
sort_strings [] = []
sort_strings (a ∷ xs) = insert a (sort_strings xs)

-- Each text comes before all that follow it, so there is none twice.
abbrev pub IsAscending : List Bytes → Type 0
IsAscending [] = Unit
IsAscending (a ∷ xs) = All (λ b. bytes_ltb a b ≡ true) xs × IsAscending xs

abbrev pub IsDistinct : List Bytes → Type 0
IsDistinct [] = Unit
IsDistinct (a ∷ xs) = All (λ b. b ≢ a) xs × IsDistinct xs

abbrev pub Among : Bytes → List Bytes → Type 0
Among a xs = Any (λ b. b ≡ a) xs

module _ (P : Bytes → Type 0) where
  insert-All : (a : Bytes) (bs : List Bytes) → P a → All P bs → All P (insert a bs)
  unfolding insert
  insert-All a [] p h = (p, tt)
  insert-All a (b ∷ bs) p (q, h) = elim (Bool-cases (bytes_ltb b a)) [
    | inl e ↦ rw e (q, insert-All a bs p h)
    | inr e ↦ rw e (p, (q, h))
  ]

  pub sort_strings-All : (xs : List Bytes) → All P xs → All P (sort_strings xs)
  unfolding sort_strings
  sort_strings-All [] h = tt
  sort_strings-All (a ∷ xs) (p, h) = insert-All a (sort_strings xs) p (sort_strings-All xs h)

before-All :
    (a b : Bytes) (bs : List Bytes)
    → bytes_ltb a b ≡ true
    → All (λ c. bytes_ltb b c ≡ true) bs
    → All (λ c. bytes_ltb a c ≡ true) bs
before-All a b [] h g = tt
before-All a b (c ∷ bs) h (g, gs) = (bytes_ltb_trans a b c h g, before-All a b bs h gs)

insert-IsAscending :
    (a : Bytes) (bs : List Bytes) → All (λ b. b ≢ a) bs → IsAscending bs → IsAscending (insert a bs)
unfolding insert
insert-IsAscending a [] n h = (tt, tt)
insert-IsAscending a (b ∷ bs) (n, ns) (h, hs) = elim (Bool-cases (bytes_ltb b a)) [
  | inl e ↦ rw e (insert-All (λ c. bytes_ltb b c ≡ true) a bs e h, insert-IsAscending a bs ns hs)
  | inr e ↦
      let first = bytes_ltb-connected b a e n in rw e ((first, before-All a b bs first h), (h, hs))
]

pub sort_strings-IsAscending : (xs : List Bytes) → IsDistinct xs → IsAscending (sort_strings xs)
unfolding sort_strings
sort_strings-IsAscending [] d = tt
sort_strings-IsAscending (a ∷ xs) (n, d) =
    insert-IsAscending a (sort_strings xs) (sort_strings-All (λ b. b ≢ a) xs n)
      (sort_strings-IsAscending xs d)

insert-Among : (a x : Bytes) (bs : List Bytes) → Among x (insert a bs) ↔ ((a ≡ x) ⊎ Among x bs)
unfolding insert
insert-Among a x [] = ground arith
insert-Among a x (b ∷ bs) = ground (arith, insert-Among a x bs)

pub sort_strings-Among : (x : Bytes) (xs : List Bytes) → Among x (sort_strings xs) ↔ Among x xs
unfolding sort_strings
sort_strings-Among x [] = (λ h. h, λ h. h)
sort_strings-Among x (a ∷ xs) =
    let (to, back) = insert-Among a x (sort_strings xs) in
    let (down, up) = sort_strings-Among x xs in
    (
      λ h. elim (to h) [ inl e ↦ inl e | inr m ↦ inr (down m) ],
      λ h. elim h [ inl e ↦ back (inl e) | inr m ↦ back (inr (up m)) ],
    )

-- A list in order has its first text nowhere else, and everything else is behind it.
pub All-Among : (P : Bytes → Type 0) (a : Bytes) (bs : List Bytes) → All P bs → Among a bs → P a
All-Among P a [] h m = absurd m
All-Among P a (b ∷ bs) (p, h) (inl e) = subst P e p
All-Among P a (b ∷ bs) (p, h) (inr m) = All-Among P a bs h m

heads_agree :
    (a b : Bytes) (xs bs : List Bytes)
    → All (λ c. bytes_ltb a c ≡ true) xs
    → All (λ c. bytes_ltb b c ≡ true) bs
    → Among b (a ∷ xs)
    → Among a (b ∷ bs)
    → a ≡ b
heads_agree a b xs bs h g (inl e) m = e
heads_agree a b xs bs h g (inr k) (inl e) = sym e
heads_agree a b xs bs h g (inr k) (inr m) =
    let forth = All-Among (λ c. bytes_ltb a c ≡ true) b xs h k in
    let back = All-Among (λ c. bytes_ltb b c ≡ true) a bs g m in
    let never = bytes_ltb_irrefl a in absurd (ground (arith, bytes_ltb_trans a b a))

behind :
    (a x : Bytes) (xs bs : List Bytes)
    → All (λ c. bytes_ltb a c ≡ true) xs
    → Among x xs
    → Among x (a ∷ bs)
    → Among x bs
behind a x xs bs h k (inr m) = m
behind a x xs bs h k (inl e) =
    let itself = All-Among (λ c. bytes_ltb a c ≡ true) x xs h k in
    let never = bytes_ltb_irrefl a in absurd (cc)

-- Lists in order of the same texts are equal.
pub IsAscending-unique :
    (xs bs : List Bytes)
    → IsAscending xs
    → IsAscending bs
    → ((x : Bytes) → Among x xs ↔ Among x bs)
    → xs ≡ bs
IsAscending-unique [] [] h g same = refl
IsAscending-unique [] (b ∷ bs) h g same = absurd ((same b).1 (inl refl))
IsAscending-unique (a ∷ xs) [] h g same = absurd ((same a).0 (inl refl))
IsAscending-unique (a ∷ xs) (b ∷ bs) (h, hs) (g, gs) same =
    let e = heads_agree a b xs bs h g ((same b).1 (inl refl)) ((same a).0 (inl refl)) in
    let g' = subst (λ c. All (λ d. bytes_ltb c d ≡ true) bs) (sym e) g in
    let rest = IsAscending-unique xs bs hs gs (λ x. (
      λ m. behind a x xs bs h m (subst (λ c. Among x (c ∷ bs)) (sym e) ((same x).0 (inr m))),
      λ m. behind a x bs xs g' m ((same x).1 (inr m)),
    )) in
    ap (λ c. c ∷ xs) e ∙ ap (◌∷◌ b) rest
