-- ===== src/Text/Search.antt =====
-- Laws of `starts_with`, `contains`, `find` and the slices.
use sovalune_core.Common.{
  ℕ, ◌≡◌, refl, Bool, true, false, ◌||◌, none, [], ◌∷◌, ◌++◌, ◌==◌, ==_refl, or_right, arith,
}
use sovalune_core.Text.{Text, starts_with, contains, find}

pub starts_with-append : (p t : Text) → starts_with (p ++ t) p ≡ true
unfolding starts_with
starts_with-append [] t = refl
starts_with-append (a ∷ p) t = ground (arith, ==_refl a, starts_with-append p t)

pub starts_with_prefix : (t p q : Text) → starts_with t (p ++ q) ≡ true → starts_with t p ≡ true
unfolding starts_with
starts_with_prefix t [] q h = refl
starts_with_prefix [] (a ∷ p) q h = h
starts_with_prefix (b ∷ t) (a ∷ p) q h = ground (arith, starts_with_prefix t p q)

-- a text that contains a pattern contains every prefix of it
pub contains_prefix : (t p q : Text) → contains t (p ++ q) ≡ true → contains t p ≡ true
unfolding contains
contains_prefix [] p q h = starts_with_prefix [] p q h
contains_prefix (c ∷ t) p q h =
    ground (arith, starts_with_prefix (c ∷ t) p q, contains_prefix t p q)

pub contains-append_left : (s t p : Text) → contains t p ≡ true → contains (s ++ t) p ≡ true
unfolding contains
contains-append_left [] t p h = h
contains-append_left (c ∷ s) t p h = or_right _ _ (contains-append_left s t p h)

pub contains_of_starts_with : (t p : Text) → starts_with t p ≡ true → contains t p ≡ true
unfolding contains
contains_of_starts_with [] p h = h
contains_of_starts_with (c ∷ t) p h = ground arith

-- the character stands in the text
unfoldable pub has_char : ℕ → Text → Bool
has_char a [] = false
has_char a (c ∷ t) = c == a || has_char a t

pub has_char-append : (a : ℕ) (s t : Text) → has_char a (s ++ t) ≡ (has_char a s || has_char a t)
unfolding has_char
has_char-append a [] t = refl
has_char-append a (c ∷ s) t = ground (arith, has_char-append a s t)

starts_with_no_char :
    (a : ℕ) (t p : Text) → has_char a p ≡ true → has_char a t ≡ false → starts_with t p ≡ false
unfolding starts_with has_char
starts_with_no_char a t [] h k = cc
starts_with_no_char a [] (b ∷ p) h k = refl
starts_with_no_char a (c ∷ t) (b ∷ p) h k = ground (arith, starts_with_no_char a t p)

-- a pattern with a character that the text lacks is not found
pub find_no_char :
    (a : ℕ) (t p : Text) → has_char a p ≡ true → has_char a t ≡ false → find t p ≡ none
unfolding find has_char
find_no_char a [] p h k = rw (starts_with_no_char a [] p h k) refl
find_no_char a (c ∷ t) p h k = ground (arith, starts_with_no_char a (c ∷ t) p, find_no_char a t p)
