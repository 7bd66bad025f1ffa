-- ===== src/Payer/OneChar.antt =====
-- A library of UUIDs that meets the hypotheses on it, for tests.
use dcr_sdk.Common.{
  ℕ, ◌^◌, ◌<◌, ◌≡◌, refl, ltb, Option, none, some, [], ◌∷◌, Bytes, if◌then◌else◌, arith,
}
use dcr_sdk.Payer.{UuidLibrary}

-- A UUID is written as one character with its number.
unfoldable pub parse_one : Bytes → Option ℕ
parse_one (u ∷ []) = if ltb u (2 ^ 128) then some u else none
parse_one s = none

pub parse_one-lt : (s : Bytes) (u : ℕ) → parse_one s ≡ some u → u < 2 ^ 128
unfolding parse_one
parse_one-lt (v ∷ []) u e = ground arith
parse_one-lt [] u e = cc
parse_one-lt (v ∷ w ∷ s) u e = cc

pub parse_one-singleton : (u : ℕ) → u < 2 ^ 128 → parse_one (u ∷ []) ≡ some u
unfolding parse_one
parse_one-singleton u h = ground arith

abbrev pub one_char : UuidLibrary
unfolding parse_one
one_char = record {
  parse = parse_one;
  to_string = λ u. u ∷ [];
  parse-to_string = parse_one-singleton;
  parse-lt = parse_one-lt;
  parse-nil = refl;
}
