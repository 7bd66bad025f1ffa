-- ===== src/Config/HostPort.antt =====
-- `net.SplitHostPort` of the standard library. An error is `none`: the callers do not look at it.
pub mod Lists
use dcr_sdk.Common.{
  ℕ, suc, ◌==◌, Bool, true, false, ◌||◌, Option, none, some, [], ◌∷◌, Bytes, take, drop,
  if◌then◌else◌,
}
use mathlib.Core.Option

abbrev pub colon : ℕ
colon = b':'

abbrev pub opening : ℕ
opening = b'['

abbrev closing : ℕ
closing = b']'

-- `bytealg.IndexByteString`
unfoldable pub index : ℕ → Bytes → Option ℕ
index b [] = none
index b (c ∷ s) = if c == b then some 0 else Option.map suc (index b s)

-- `bytealg.LastIndexByteString`
unfoldable pub last_index : ℕ → Bytes → Option ℕ
last_index b [] = none
last_index b (c ∷ s) = elim (last_index b s) [
  | some i ↦ some (suc i)
  | none ↦ if c == b then some 0 else none
]

abbrev occurs : ℕ → Bytes → Bool
occurs b s = elim (index b s) [ none ↦ false | some i ↦ true ]

abbrev pub starts_with : ℕ → Bytes → Bool
starts_with b [] = false
starts_with b (c ∷ s) = c == b

-- The last checks: no bracket behind positions `j` and `k`.
finish : Bytes → Bytes → ℕ → ℕ → ℕ → Option (Bytes × Bytes)
finish hostport host i j k =
    if occurs opening (drop j hostport) || occurs closing (drop k hostport)
    then none
    else some (host, drop (suc i) hostport)

-- The host in brackets must end right before the last colon.
bracketed : Bytes → ℕ → Option (Bytes × Bytes)
unfolding finish
bracketed hostport i = elim (index closing hostport) [
  | none ↦ none
  | some end ↦
      if suc end == i then finish hostport (drop 1 (take end hostport)) i 1 (suc end) else none
]

plain : Bytes → ℕ → Option (Bytes × Bytes)
unfolding finish
plain hostport i =
    if occurs colon (take i hostport) then none else finish hostport (take i hostport) i 0 0

unfoldable pub split_host_port : Bytes → Option (Bytes × Bytes)
unfolding index last_index bracketed plain
split_host_port hostport = elim (last_index colon hostport) [
  | none ↦ none
  | some i ↦ if starts_with opening hostport then bracketed hostport i else plain hostport i
]
