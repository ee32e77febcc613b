-- ===== src/Text/Decimal.antt =====
-- Unsigned decimal numbers: `str::parse::<u64>` and the printing of an integer.
use sovalune_core.Common.{
  ℕ, zero, suc, ◌+◌, ◌-◌, ◌*◌, ◌/◌, ◌%◌, ◌^◌, ◌<◌, ◌≡◌, refl, ap, ◌∙◌, Bool, true, false, ◌&&◌,
  Option, none, some, [], ◌∷◌, ◌++◌, ◌==◌, ltb, leb, if◌then◌else◌, All, arith, Bool-cases, inl,
  inr,
}
use sovalune_core.Text.{Text}

abbrev pub is_digit : ℕ → Bool
is_digit c = leb b'0' c && leb c b'9'

-- the digits after the sign; `none` on another character or past `u64::MAX`
unfoldable pub parse_digits : ℕ → Text → Option ℕ
parse_digits acc [] = some acc
parse_digits acc (c ∷ t) =
    let next = acc * 10 + (c - b'0') in
    let rest = parse_digits next t in if is_digit c && ltb next (2 ^ 64) then rest else none

parse_unsigned : Text → Option ℕ
parse_unsigned [] = none
parse_unsigned (c ∷ t) = parse_digits 0 (c ∷ t)

-- `parse::<u64>()`: an optional `+`, then at least one digit
unfoldable pub parse_u64 : Text → Option ℕ
unfolding parse_unsigned parse_digits
parse_u64 [] = none
parse_u64 (c ∷ t) = if c == b'+' then parse_unsigned t else parse_unsigned (c ∷ t)

-- the decimal digits of `n` before `tail`; `f` bounds their number
print_digits : ℕ → ℕ → Text → Text
print_digits zero n tail = tail
print_digits (suc f) n tail =
    let rest = print_digits f (n / 10) ((b'0' + n % 10) ∷ tail) in
    if ltb n 10 then (b'0' + n) ∷ tail else rest

-- `Display` of an unsigned integer
unfoldable pub print_nat : ℕ → Text
unfolding print_digits
print_nat n = print_digits (suc n) n []

print_digits_digits :
    (f n : ℕ) (tail : Text)
    → All (λ c. is_digit c ≡ true) tail
    → All (λ c. is_digit c ≡ true) (print_digits f n tail)
unfolding print_digits
print_digits_digits zero n tail h = h
print_digits_digits (suc f) n tail h = elim (Bool-cases (ltb n 10)) [
  | inl small ↦ rw small (ground arith, h)
  | inr large ↦ rw large (print_digits_digits f (n / 10) ((b'0' + n % 10) ∷ tail) (ground arith, h))
]

pub print_nat_digits : (n : ℕ) → All (λ c. is_digit c ≡ true) (print_nat n)
unfolding print_nat
print_nat_digits n = print_digits_digits (suc n) n [] tt

-- digits with anything behind them do not parse if a later character is no digit
pub parse_digits-append_none :
    (acc : ℕ) (t : Text) (c : ℕ) (u : Text)
    → is_digit c ≡ false
    → parse_digits acc (t ++ c ∷ u) ≡ none
unfolding parse_digits
parse_digits-append_none acc [] c u h = rw h
parse_digits-append_none acc (a ∷ t) c u h =
    ground (arith, parse_digits-append_none (acc * 10 + (a - b'0')) t c u)

parse_unsigned-append_none :
    (t : Text) (c : ℕ) (u : Text) → is_digit c ≡ false → parse_unsigned (t ++ c ∷ u) ≡ none
unfolding parse_unsigned
parse_unsigned-append_none [] c u h = parse_digits-append_none 0 [] c u h
parse_unsigned-append_none (a ∷ t) c u h = parse_digits-append_none 0 (a ∷ t) c u h

-- so does a whole text, if the character is no sign either
pub parse_u64-append_none :
    (t : Text) (c : ℕ) (u : Text)
    → is_digit c ≡ false
    → (c == b'+') ≡ false
    → parse_u64 (t ++ c ∷ u) ≡ none
unfolding parse_u64
parse_u64-append_none [] c u h k = ground arith
parse_u64-append_none (a ∷ t) c u h k =
    ground (arith, parse_unsigned-append_none t c u h, parse_digits-append_none 0 (a ∷ t) c u h)

parse_digits-step :
    (acc c n : ℕ) (t : Text)
    → is_digit c ≡ true
    → acc * 10 + (c - b'0') ≡ n
    → n < 2 ^ 64
    → parse_digits acc (c ∷ t) ≡ parse_digits n t
unfolding parse_digits
parse_digits-step acc c n t h e k = ground arith

parse_print_digits :
    (f n : ℕ) (tail : Text)
    → n < f
    → n < 2 ^ 64
    → parse_digits 0 (print_digits f n tail) ≡ parse_digits n tail
unfolding print_digits
parse_print_digits zero n tail h k = absurd (omega arith)
parse_print_digits (suc f) n tail h k = elim (Bool-cases (ltb n 10)) [
  | inl small ↦ rw small (parse_digits-step 0 (b'0' + n) n tail (ground arith) (omega arith) k)
  | inr large ↦ rw large (
      parse_print_digits f (n / 10) ((b'0' + n % 10) ∷ tail) (ground arith) (omega arith)
      ∙ parse_digits-step (n / 10) (b'0' + n % 10) n tail (ground arith) (omega arith) k)
]

print_digits-cons :
    (f n c : ℕ) (tail : Text) → (a : ℕ) × (u : Text) × (print_digits f n (c ∷ tail) ≡ a ∷ u)
unfolding print_digits
print_digits-cons zero n c tail = (c, tail, refl)
print_digits-cons (suc f) n c tail = elim (Bool-cases (ltb n 10)) [
  | inl small ↦ (b'0' + n, c ∷ tail, rw small)
  | inr large ↦
      let (a, u, e) = print_digits-cons f (n / 10) (b'0' + n % 10) (c ∷ tail) in (a, u, rw large e)
]

pub print_nat-cons : (n : ℕ) → (a : ℕ) × (u : Text) × (print_nat n ≡ a ∷ u)
unfolding print_nat
print_nat-cons n = elim (Bool-cases (ltb n 10)) [
  | inl small ↦ (b'0' + n, [], rw small)
  | inr large ↦
      let (a, u, e) = print_digits-cons n (n / 10) (b'0' + n % 10) [] in (a, u, rw large e)
]

parse_print_nat : (n : ℕ) → n < 2 ^ 64 → parse_digits 0 (print_nat n) ≡ some n
unfolding print_nat parse_digits
parse_print_nat n h = parse_print_digits (suc n) n [] (omega arith) h

-- no digit is a sign
parse_u64-digit :
    (c : ℕ) (t : Text) → is_digit c ≡ true → parse_u64 (c ∷ t) ≡ parse_digits 0 (c ∷ t)
unfolding parse_u64
parse_u64-digit c t h = ground arith

-- what is printed parses to the number
pub parse_u64-print_nat : (n : ℕ) → n < 2 ^ 64 → parse_u64 (print_nat n) ≡ some n
parse_u64-print_nat n h =
    let (a, u, e) = print_nat-cons n in
    let digits : All (λ c. is_digit c ≡ true) (a ∷ u) = rw e at (print_nat_digits n) in
    ap parse_u64 e ∙ parse_u64-digit a u digits.0 ∙ (rw (← e) (parse_print_nat n h))
