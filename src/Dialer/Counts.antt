-- ===== src/Dialer/Counts.antt =====
-- The maps of counts of the dialer.
use dcr_sdk.Common.{
  ℕ, ◌+◌, ◌-◌, ◌≡◌, refl, ◌∙◌, true, List, [], ◌∷◌, Bytes, arith, if◌then◌else◌, Bool-cases, inl,
  inr,
}
use dcr_sdk.Common.Strings.{bytes_eq, bytes_eq_iff}
use dcr_sdk.Dialer.{
  Conn, Counts, count_of, increment, decrement, total, contains, count_conns, is_idle,
}

pub bytes_eq_refl : (a : Bytes) → bytes_eq a a ≡ true
bytes_eq_refl a = (bytes_eq_iff a a).1 refl

pub count_of-increment :
    (a b : Bytes) (counts : Counts)
    → count_of b (increment a counts)
      ≡ (if bytes_eq a b then count_of b counts + 1 else count_of b counts)
unfolding count_of increment
count_of-increment a b [] = ground arith
count_of-increment a b ((c, n) ∷ counts) =
    ground
      (arith, count_of-increment a b counts, bytes_eq_iff a b, bytes_eq_iff c a, bytes_eq_iff c b)

pub count_of-decrement :
    (a b : Bytes) (counts : Counts)
    → count_of b (decrement a counts)
      ≡ (if bytes_eq a b then count_of b counts - 1 else count_of b counts)
unfolding count_of decrement
count_of-decrement a b [] = ground arith
count_of-decrement a b ((c, n) ∷ counts) =
    ground
      (arith, count_of-decrement a b counts, bytes_eq_iff a b, bytes_eq_iff c a, bytes_eq_iff c b)

total-increment : (a : Bytes) (counts : Counts) → total (increment a counts) ≡ total counts + 1
unfolding total increment
total-increment a [] = omega arith
total-increment a ((c, n) ∷ counts) = ground (arith, total-increment a counts)

-- How many of the connections are to address `a`, and how many of those are idle.
unfoldable pub conns_at : Bytes → List Conn → ℕ
conns_at a [] = 0
conns_at a (c ∷ conns) = if bytes_eq c.addr a then 1 + conns_at a conns else conns_at a conns

unfoldable pub idle_at : Bytes → List Conn → ℕ
idle_at a [] = 0
idle_at a (c ∷ conns) =
    if bytes_eq c.addr a
    then (if is_idle c then 1 + idle_at a conns else idle_at a conns)
    else idle_at a conns

-- How many of the connections are to an address of the list.
unfoldable pub conns_on : List Bytes → List Conn → ℕ
conns_on allowed [] = 0
conns_on allowed (c ∷ conns) =
    if contains c.addr allowed then 1 + conns_on allowed conns else conns_on allowed conns

count_of-count_conns_from :
    (allowed : List Bytes) (a : Bytes) (conns : List Conn) (counts : Counts)
    → contains a allowed ≡ true
    → count_of a (count_conns allowed conns counts) ≡ count_of a counts + conns_at a conns
unfolding count_conns conns_at
count_of-count_conns_from allowed a [] counts h = omega arith
count_of-count_conns_from allowed a (c ∷ conns) counts h =
    elim (Bool-cases (contains c.addr allowed)) [
      | inl on ↦ rw on (
          ground (
            arith,
            count_of-count_conns_from allowed a conns (increment c.addr counts) h,
            count_of-increment c.addr a counts,
          ))
      | inr off ↦ rw off (
          ground (arith, count_of-count_conns_from allowed a conns counts h, bytes_eq_iff c.addr a))
    ]

-- The counting loop counts the connections to each allowed address.
pub count_of-count_conns :
    (allowed : List Bytes) (a : Bytes) (conns : List Conn)
    → contains a allowed ≡ true
    → count_of a (count_conns allowed conns []) ≡ conns_at a conns
unfolding count_of
count_of-count_conns allowed a conns h =
    count_of-count_conns_from allowed a conns [] h ∙ omega arith

total-count_conns_from :
    (allowed : List Bytes) (conns : List Conn) (counts : Counts)
    → total (count_conns allowed conns counts) ≡ total counts + conns_on allowed conns
unfolding count_conns conns_on
total-count_conns_from allowed [] counts = omega arith
total-count_conns_from allowed (c ∷ conns) counts = ground (
  arith,
  total-count_conns_from allowed conns counts,
  total-count_conns_from allowed conns (increment c.addr counts),
  total-increment c.addr counts,
)

pub total-count_conns :
    (allowed : List Bytes) (conns : List Conn)
    → total (count_conns allowed conns []) ≡ conns_on allowed conns
unfolding total
total-count_conns allowed conns = total-count_conns_from allowed conns [] ∙ omega arith
