-- ===== src/Text.antt =====
-- Texts: the operations of the standard library's `str` that the crates call, on lists of code
-- points, with sizes and positions counted in bytes of UTF-8 as Rust counts them.
pub mod Search
pub mod Decimal
pub mod Ascii
pub mod Pieces
pub mod Equality
pub mod Slices
use Prim.Native.Char.{code}
use Prim.Native.String.{String}
use sovalune_core.Common.{
  ℕ, zero, suc, ◌+◌, ◌-◌, ◌*◌, ◌≡◌, Bool, true, false, not, ◌&&◌, ◌||◌, Option, none, some, List,
  [], ◌∷◌, ◌++◌, ltb, leb, ◌==◌, if◌then◌else◌,
}
use mathlib.Core.Option

abbrev pub Text : Type 0
Text = List ℕ

-- the code points of a literal
abbrev pub codes : String → Text
codes String.[] = []
codes (String.◌∷◌ c s) = code c ∷ codes s

-- `char::len_utf8`
abbrev pub char_len : ℕ → ℕ
char_len c = if ltb c 128 then 1 else if ltb c 2048 then 2 else if ltb c 65536 then 3 else 4

-- `str::len`
unfoldable pub byte_len : Text → ℕ
byte_len [] = 0
byte_len (c ∷ t) = char_len c + byte_len t

-- equality of texts
unfoldable pub text_eq : Text → Text → Bool
text_eq [] [] = true
text_eq (a ∷ s) (b ∷ t) = (a == b) && text_eq s t
text_eq _ _ = false

-- `t.starts_with(p)`
unfoldable pub starts_with : Text → Text → Bool
starts_with t [] = true
starts_with [] (a ∷ p) = false
starts_with (b ∷ t) (a ∷ p) = (b == a) && starts_with t p

-- `t.contains(p)`
unfoldable pub contains : Text → Text → Bool
unfolding starts_with
contains [] p = starts_with [] p
contains (c ∷ t) p = starts_with (c ∷ t) p || contains t p

-- `t.find(p)`: the byte position of the first match
unfoldable pub find : Text → Text → Option ℕ
unfolding starts_with
find [] p = if starts_with [] p then some 0 else none
find (c ∷ t) p =
    let rest = Option.map (λ n. char_len c + n) (find t p) in
    if starts_with (c ∷ t) p then some 0 else rest

-- `&t[n..]`; `none` is the panic on a position out of range or inside a character
unfoldable pub slice_from : Text → ℕ → Option Text
slice_from t zero = some t
slice_from [] (suc n) = none
slice_from (c ∷ t) (suc n) =
    let rest = slice_from t (suc n - char_len c) in if ltb (suc n) (char_len c) then none else rest

-- `&t[..n]`; `none` is the panic
unfoldable pub slice_to : Text → ℕ → Option Text
slice_to t zero = some []
slice_to [] (suc n) = none
slice_to (c ∷ t) (suc n) =
    let rest = Option.map (λ s. c ∷ s) (slice_to t (suc n - char_len c)) in
    if ltb (suc n) (char_len c) then none else rest

-- `char::is_whitespace`: the White_Space property of Unicode
unfoldable pub is_whitespace : ℕ → Bool
is_whitespace c =
    (leb 9 c && leb c 13)
    || c == 32
    || c == 0x85
    || c == 0xa0
    || c == 0x1680
    || (leb 0x2000 c && leb c 0x200a)
    || c == 0x2028
    || c == 0x2029
    || c == 0x202f
    || c == 0x205f
    || c == 0x3000

-- `t.split_whitespace().next()`: skip the leading white space, then take up to the next one
unfoldable pub skip_whitespace : Text → Text
skip_whitespace [] = []
skip_whitespace (c ∷ t) = let rest = skip_whitespace t in if is_whitespace c then rest else c ∷ t

unfoldable pub take_word : Text → Text
take_word [] = []
take_word (c ∷ t) = let rest = take_word t in if is_whitespace c then [] else c ∷ rest

unfoldable pub first_word : Text → Option Text
first_word t = elim (take_word (skip_whitespace t)) [ [] ↦ none | c ∷ w ↦ some (c ∷ w) ]

-- `t.is_empty()`
abbrev pub is_empty : Text → Bool
is_empty [] = true
is_empty (c ∷ t) = false
