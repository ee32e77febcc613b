-- ===== src/Retry/Positions.antt =====
-- crates/sovalune-model-runtime/src/retry.rs: the positions in an error text that `extract_retry_after`
-- finds and uses.
use sovalune_core.Common.{
  ℕ, zero, suc, ◌+◌, ◌-◌, ◌≤◌, ◌<◌, ◌≡◌, refl, sym, ap, ◌∙◌, true, Option, none, some, [], ◌∷◌, map,
  returns, panics, length, Bool-cases, Option-cases, inl, inr, arith,
}
use sovalune_core.Text.{Text, codes, char_len, byte_len, starts_with, find, slice_from}
use sovalune_core.Text.Ascii.{ascii_lower, IsAscii, LowercaseLaws}
use sovalune_core.Retry.{Duration, extract_retry_after, search_after, seconds_of}

starts_with-length : (t p : Text) → starts_with t p ≡ true → length p ≤ length t
unfolding starts_with
starts_with-length t [] h = omega arith
starts_with-length [] (a ∷ p) h = cc
starts_with-length (b ∷ t) (a ∷ p) h = ground (arith, starts_with-length t p)

-- in an ASCII text a match ends within the text
find-le-length : (t p : Text) (n : ℕ) → IsAscii t → find t p ≡ some n → n + length p ≤ length t
unfolding find
find-le-length [] p n h e = ground (arith, starts_with-length [] p)
find-le-length (c ∷ t) p n h e = elim (Bool-cases (starts_with (c ∷ t) p)) [
  | inl here ↦ ground (arith, starts_with-length (c ∷ t) p)
  | inr later ↦ elim (Option-cases (find t p)) [
    | inl missed ↦ absurd (ground arith)
    | inr (m, found) ↦ ground (arith, find-le-length t p m h.1 found)
  ]
]

slice_from-ascii :
    (t : Text) (n : ℕ) → IsAscii t → n ≤ length t → (s : Text) × (slice_from t n ≡ some s)
unfolding slice_from
slice_from-ascii t zero h k = (t, refl)
slice_from-ascii [] (suc n) h k = absurd (omega arith)
slice_from-ascii (c ∷ t) (suc n) h k =
    let (s, e) = slice_from-ascii t n h.1 (omega arith) in (s, ground arith)

lower-IsAscii : (t : Text) → IsAscii t → IsAscii (map ascii_lower t)
unfolding ascii_lower
lower-IsAscii [] h = tt
lower-IsAscii (c ∷ t) h = (ground arith, lower-IsAscii t h.1)

length-lower : (t : Text) → length (map ascii_lower t) ≡ length t
length-lower [] = refl
length-lower (c ∷ t) = ap suc (length-lower t)

module _ (lower : Text → Text) (laws : LowercaseLaws lower) where
  search_after_returns :
      (error : Text) (skip : ℕ) (sought : Text)
      → IsAscii error
      → skip ≤ length sought
      → (d : Option Duration) × (search_after lower error skip sought ≡ returns d)
  unfolding search_after
  search_after_returns error skip sought a k = elim (Option-cases (find (lower error) sought)) [
    | inl missed ↦ (none, rw (missed, search_after))
    | inr (pos, found) ↦
        let inside : pos + length sought ≤ length (map ascii_lower error) =
          find-le-length _ sought pos (lower-IsAscii error a)
            (sym (ap (λ t. find t sought) (laws.ascii error a)) ∙ found) in
        let (rest, sliced) =
          slice_from-ascii error (pos + skip) a (omega (arith, length-lower error)) in
        (seconds_of rest, rw (found, sliced, search_after))
  ]

  both_searches :
      (error : Text) (d d' : Option Duration)
      → search_after lower error 11 (codes "retry after") ≡ returns d
      → search_after lower error 12 (codes "retry-after:") ≡ returns d'
      → (r : Option Duration) × (extract_retry_after lower error ≡ returns r)
  unfolding extract_retry_after
  both_searches error none d' e e' = (d', ground arith)
  both_searches error (some d) d' e e' = (some d, ground arith)

  -- On an ASCII error text the search for a delay returns, with a lower case that is that of ASCII
  -- on ASCII texts.
  pub extract_retry_after_returns :
      (error : Text)
      → IsAscii error
      → (d : Option Duration) × (extract_retry_after lower error ≡ returns d)
  extract_retry_after_returns error a =
      let (d, first) = search_after_returns error 11 (codes "retry after") a (omega arith) in
      let (d', second) = search_after_returns error 12 (codes "retry-after:") a (omega arith) in
      both_searches error d d' first second

slice_from_beyond : (t : Text) (n : ℕ) → byte_len t < n → slice_from t n ≡ none
unfolding byte_len slice_from
slice_from_beyond t zero h = absurd (omega arith)
slice_from_beyond [] (suc n) h = refl
slice_from_beyond (c ∷ t) (suc n) h = ground (arith, slice_from_beyond t (suc n - char_len c))

-- Where lower case moves the match so far that it ends past the end of the text itself, the search
-- panics.
pub extract_retry_after_panics :
    (lower : Text → Text) (error : Text) (pos : ℕ)
    → find (lower error) (codes "retry after") ≡ some pos
    → byte_len error < pos + 11
    → extract_retry_after lower error ≡ panics
unfolding extract_retry_after search_after
extract_retry_after_panics lower error pos found beyond =
    ground (arith, slice_from_beyond error (pos + 11))
