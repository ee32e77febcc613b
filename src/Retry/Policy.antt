-- ===== src/Retry/Policy.antt =====
-- crates/sovalune-model-runtime/src/retry.rs: `should_retry` and `extract_retry_after` on the error
-- texts of the crate.
use sovalune_core.Common.{
  ℕ, ◌+◌, ◌<◌, ◌≡◌, refl, ◌∙◌, ap, true, false, none, some, [], ◌∷◌, ◌++◌, map, returns, All,
  All-append, arith,
}
use sovalune_core.Text.{
  Text, codes, contains, starts_with, find, slice_from, first_word, skip_whitespace, take_word,
  is_whitespace,
}
use sovalune_core.Text.Search.{has_char, find_no_char, has_char-append}
use sovalune_core.Text.Decimal.{print_nat, print_nat_digits, is_digit, parse_u64-append_none}
use sovalune_core.Text.Ascii.{ascii_lower, IsAscii, LowercaseLaws}
use sovalune_core.Types.{display, rate_limited}
use sovalune_core.Retry.{should_retry, extract_retry_after, search_after, seconds_of}

-- the digits of a number are ASCII, are kept by lower case, hold no colon and no white space
digits-IsAscii : (t : Text) → All (λ c. is_digit c ≡ true) t → IsAscii t
digits-IsAscii [] h = tt
digits-IsAscii (c ∷ t) h = (ground arith, digits-IsAscii t h.1)

digits_lower : (t : Text) → All (λ c. is_digit c ≡ true) t → map ascii_lower t ≡ t
unfolding ascii_lower
digits_lower [] h = refl
digits_lower (c ∷ t) h = ground (arith, digits_lower t h.1)

digits_no_colon : (t : Text) → All (λ c. is_digit c ≡ true) t → has_char b':' t ≡ false
unfolding has_char
digits_no_colon [] h = refl
digits_no_colon (c ∷ t) h = ground (arith, digits_no_colon t h.1)

digits_word : (t u : Text) → All (λ c. is_digit c ≡ true) t → take_word (t ++ u) ≡ t ++ take_word u
unfolding take_word is_whitespace
digits_word [] u h = refl
digits_word (c ∷ t) u h = ground (arith, digits_word t u h.1)

digits_skip :
    (t : Text) (c : ℕ) (u : Text)
    → All (λ c. is_digit c ≡ true) t
    → is_whitespace c ≡ false
    → skip_whitespace (t ++ c ∷ u) ≡ t ++ c ∷ u
unfolding skip_whitespace is_whitespace
digits_skip [] c u h k = ground arith
digits_skip (d ∷ t) c u h k = ground arith

abbrev quiet_head : Text
quiet_head = codes "rate limited, retry after "

map_append : (s t : Text) → map ascii_lower (s ++ t) ≡ map ascii_lower s ++ map ascii_lower t
map_append [] t = refl
map_append (c ∷ s) t = ap (◌∷◌ (ascii_lower c)) (map_append s t)

-- a first word that is not empty
first_word_of :
    (t s : Text) (c : ℕ) (u : Text)
    → take_word (skip_whitespace t) ≡ s ++ c ∷ u
    → first_word t ≡ some (s ++ c ∷ u)
unfolding first_word
first_word_of t [] c u e = rw (e, first_word)
first_word_of t (a ∷ s) c u e = rw (e, first_word)

module _ (lower : Text → Text) (laws : LowercaseLaws lower) (n : ℕ) where
  rate_limited-IsAscii : IsAscii (display (rate_limited n))
  unfolding display
  rate_limited-IsAscii =
      All-append (λ c. c < 128) (codes "Rate limited, retry after ") (print_nat n ++ codes "ms")
        (omega arith)
        (All-append (λ c. c < 128) (print_nat n) (codes "ms")
          (digits-IsAscii _ (print_nat_digits n)) (omega arith))

  rate_limited_lower : lower (display (rate_limited n)) ≡ quiet_head ++ (print_nat n ++ codes "ms")
  unfolding display ascii_lower
  rate_limited_lower =
      laws.ascii (display (rate_limited n)) rate_limited-IsAscii
      ∙ ap (λ t. quiet_head ++ t)
          (map_append (print_nat n) (codes "ms")
            ∙ ap (λ t. t ++ codes "ms") (digits_lower _ (print_nat_digits n)))

  rate_limited_find :
      find (quiet_head ++ (print_nat n ++ codes "ms")) (codes "retry after") ≡ some 14
  unfolding find starts_with
  rate_limited_find = refl

  rate_limited_word :
      first_word (32 ∷ (print_nat n ++ codes "ms")) ≡ some (print_nat n ++ codes "ms")
  rate_limited_word =
      first_word_of (32 ∷ (print_nat n ++ codes "ms")) (print_nat n) b'm' (b's' ∷ []) (
        unfold skip_whitespace is_whitespace take_word in
        (ap take_word (digits_skip (print_nat n) b'm' (b's' ∷ []) (print_nat_digits n) refl)
          ∙ digits_word (print_nat n) (codes "ms") (print_nat_digits n)))

  rate_limited_slice :
      slice_from (display (rate_limited n)) (14 + 11) ≡ some (32 ∷ (print_nat n ++ codes "ms"))
  unfolding display slice_from
  rate_limited_slice = refl

  rate_limited_no_colon : has_char b':' (quiet_head ++ (print_nat n ++ codes "ms")) ≡ false
  unfolding has_char
  rate_limited_no_colon =
      has_char-append b':' (print_nat n) (codes "ms")
      ∙ rw (digits_no_colon (print_nat n) (print_nat_digits n))

  rate_limited_first :
      search_after lower (display (rate_limited n)) 11 (codes "retry after") ≡ returns none
  unfolding search_after seconds_of
  rate_limited_first = ground (
    arith,
    ap (λ t. find t (codes "retry after")) rate_limited_lower,
    rate_limited_find,
    rate_limited_slice,
    rate_limited_word,
    parse_u64-append_none (print_nat n) b'm' (b's' ∷ []) refl refl,
  )

  rate_limited_second :
      search_after lower (display (rate_limited n)) 12 (codes "retry-after:") ≡ returns none
  unfolding search_after
  rate_limited_second = ground (
    arith,
    ap (λ t. find t (codes "retry-after:")) rate_limited_lower,
    find_no_char b':' (quiet_head ++ (print_nat n ++ codes "ms")) (codes "retry-after:")
        (unfold has_char in refl) rate_limited_no_colon,
  )

  -- The error that carries the delay of the server is retried, and its delay is not read: the
  -- number is printed with `ms` behind it, and such a word is no number. Lower case is that of
  -- ASCII on ASCII texts.
  pub rate_limited_ignored :
      (should_retry lower (display (rate_limited n)) ≡ true)
      × (extract_retry_after lower (display (rate_limited n)) ≡ returns none)
  unfolding should_retry extract_retry_after
  rate_limited_ignored = (
    rw rate_limited_lower (unfold contains in refl),
    ground (arith, rate_limited_first, rate_limited_second),
  )
