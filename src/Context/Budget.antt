-- ===== src/Context/Budget.antt =====
-- crates/sovalune-model-runtime/src/context.rs: `build` and `truncate_to_tokens` against the limit.
use sovalune_core.Common.{
  ℕ, zero, suc, ◌+◌, ◌-◌, ◌*◌, ◌%◌, ◌^◌, ◌≤◌, ◌<◌, ◌≡◌, refl, false, none, some, List, [], ◌∷◌,
  ◌++◌, All, All-append, returns, panics, ltb, leb, le→leb, Bool-cases, Option-cases, inl, inr,
  arith,
}
use mathlib.Core.List.{append-nil}
use sovalune_core.Text.{Text, codes, char_len, byte_len, slice_to, is_empty}
use sovalune_core.Types.{ContextSection}
use sovalune_core.Context.{
  ContextBuilder, estimate_tokens, truncate_to_tokens, cut, push_section, build_loop, build,
  insert_sorted, sort_by_priority,
}
use sovalune_core.Context.Sort.{total, sort_by_priority-All}
use sovalune_core.Context.Build.{Pushed, shorten, push_section_fits}
use sovalune_core.Context.Order.{build_loop_rule, is_system}

byte_len-append : (s t : Text) → byte_len (s ++ t) ≡ byte_len s + byte_len t
unfolding byte_len
byte_len-append [] t = omega arith
byte_len-append (c ∷ s) t = omega (arith, byte_len-append s t)

byte_len-slice_to : (t : Text) (n : ℕ) (s : Text) → slice_to t n ≡ some s → byte_len s ≡ n
unfolding byte_len slice_to
byte_len-slice_to t zero s h = ground arith
byte_len-slice_to [] (suc n) s h = cc
byte_len-slice_to (c ∷ t) (suc n) s h = elim (Bool-cases (ltb (suc n) (char_len c))) [
  | inl inside ↦ absurd (ground arith)
  | inr past ↦ elim (Option-cases (slice_to t (suc n - char_len c))) [
    | inl fault ↦ absurd (ground arith)
    | inr (u, done) ↦
        let e : s ≡ c ∷ u = ground arith in
        let rest : byte_len u ≡ suc n - char_len c =
          byte_len-slice_to t (suc n - char_len c) u done in
        rw e (ground arith)
  ]
]

-- A text that is cut to `n` tokens, with `n` not 0 and `n * 4` below 2^64, is estimated at no more
-- than `n`, where the cut does not panic.
pub truncate_to_tokens-fits :
    (text : Text) (n : ℕ) (t : Text)
    → 0 < n
    → n * 4 < 2 ^ 64
    → truncate_to_tokens text n ≡ returns t
    → estimate_tokens t ≤ n
unfolding truncate_to_tokens estimate_tokens
truncate_to_tokens-fits text n t pos small h =
    let e : (n * 4) % 2 ^ 64 ≡ n * 4 = omega arith in
    elim (Bool-cases (leb (byte_len text) ((n * 4) % 2 ^ 64))) [
      | inl fits ↦ let e' : t ≡ text = ground arith in rw e' (ground arith)
      | inr over ↦ elim (Option-cases (slice_to text ((n * 4) % 2 ^ 64 - 3))) [
        | inl fault ↦ absurd (ground arith)
        | inr (u, done) ↦
            let e' : t ≡ u ++ codes "..." = ground arith in
            let dots : byte_len (codes "...") ≡ 3 = unfold byte_len in refl in
            rw (e', byte_len-append u (codes "..."))
              (omega (arith, byte_len-slice_to text _ u done))
      ]
    ]

-- every section returned has an estimate of at most the limit
abbrev Within : ℕ → ℕ → List ContextSection → List ContextSection → Type 0
Within max used result ss = All (λ t. t.token_estimate ≤ max) result

Within-round :
    (max used : ℕ) (s : ContextSection) (ss result : List ContextSection) (used' : ℕ)
    (out : List ContextSection)
    → All (λ t. t.token_estimate < 2 ^ 63) (s ∷ ss) × (used ≤ max) × Within max used result (s ∷ ss)
    → max < 2 ^ 63
    → Pushed max used s used' out
    → All (λ t. t.token_estimate < 2 ^ 63) ss × (used' ≤ max) × Within max used' (result ++ out) ss
Within-round max used s ss result used' out h small (inl (e, le, pushed)) = (
  h.0.1,
  le,
  rw pushed (
      All-append (λ t. t.token_estimate ≤ max) result (s ∷ []) h.2
        (let e' : (used + s.token_estimate) % 2 ^ 64 ≡ used + s.token_estimate = omega arith in
          (omega arith, tt))),
)
Within-round max used s ss result used' out h small (inr (inl (t, e, _, less, _, pushed))) = (
  h.0.1,
  omega arith,
  rw pushed (
      All-append (λ t. t.token_estimate ≤ max) result (shorten s t (max - used) ∷ []) h.2
        (omega arith, tt)),
)
Within-round max used s ss result used' out h small (inr (inr (e, pushed))) =
    (h.0.1, omega arith, rw (pushed, append-nil result) h.2)

-- For a limit and estimates below 2^63, where `build` returns, no section returned is larger than
-- the limit.
pub build-within :
    (b : ContextBuilder) (r : List ContextSection)
    → b.max_tokens < 2 ^ 63
    → All (λ t. t.token_estimate < 2 ^ 63) b.sections
    → build b ≡ returns r
    → All (λ t. t.token_estimate ≤ b.max_tokens) r
unfolding build
build-within b r small fine h =
    (build_loop_rule b.max_tokens
      (λ used result ss.
        All (λ t. t.token_estimate < 2 ^ 63) ss
        × (used ≤ b.max_tokens)
        × Within b.max_tokens used result ss)
      (λ used s ss result used' out inv p.
        Within-round b.max_tokens used s ss result used' out inv small p)
      0 (sort_by_priority b.sections) [] r
      (sort_by_priority-All (λ t. t.token_estimate < 2 ^ 63) b.sections fine, omega arith, tt)
      h).1.2

push_section_cut :
    (max used remaining : ℕ) (big : ContextSection) (t : Text)
    → max - used ≡ remaining
    → max < 2 ^ 63
    → big.token_estimate < 2 ^ 63
    → used < max
    → max < used + big.token_estimate
    → is_system big ≡ false
    → truncate_to_tokens big.content remaining ≡ returns t
    → is_empty t ≡ false
    → push_section max used big ≡ returns (used, shorten big t remaining ∷ [])
unfolding push_section cut
push_section_cut max used remaining big t d lim lim' less over role done left =
    let e : (used + big.token_estimate) % 2 ^ 64 ≡ used + big.token_estimate = omega arith in
    rw d (ground (arith, e))

both_rounds :
    (max : ℕ) (big small : ContextSection) (t : Text)
    → push_section max 0 big ≡ returns (0, shorten big t max ∷ [])
    → push_section max 0 small ≡ returns (0 + small.token_estimate, small ∷ [])
    → build_loop max 0 (big ∷ small ∷ []) [] ≡ returns (shorten big t max ∷ small ∷ [])
unfolding build_loop
both_rounds max big small t e e' = rw (e, build_loop) (rw (e', build_loop))

-- The round that cuts a section does not count what it pushes. For a limit and estimates below
-- 2^63, a section of another role than system that is too large, and is cut to the whole limit with
-- something of it left, is followed by a later one that fits alone: the estimates returned sum up
-- to more than the limit by those of the later one.
pub build_passes_limit :
    (b : ContextBuilder) (big small : ContextSection) (t : Text)
    → b.sections ≡ big ∷ small ∷ []
    → big.priority ≤ small.priority
    → b.max_tokens < 2 ^ 63
    → big.token_estimate < 2 ^ 63
    → 0 < b.max_tokens
    → b.max_tokens < big.token_estimate
    → is_system big ≡ false
    → truncate_to_tokens big.content b.max_tokens ≡ returns t
    → is_empty t ≡ false
    → small.token_estimate ≤ b.max_tokens
    → (r : List ContextSection) × (build b ≡ returns r)
      × (total r ≡ b.max_tokens + small.token_estimate)
unfolding build
build_passes_limit b big small t e ord lim lim' pos over role done left fits = (
  shorten big t b.max_tokens ∷ small ∷ [],
  rw e (
      unfold sort_by_priority insert_sorted in
      (rw (le→leb _ _ ord) (
        both_rounds b.max_tokens big small t
          (push_section_cut b.max_tokens 0 b.max_tokens big t (omega arith) lim lim' pos
            (omega arith) role done left)
          (push_section_fits b.max_tokens 0 small (omega arith) (omega arith))))),
  omega arith,
)

-- a text of characters of two bytes, as Cyrillic letters are
abbrev pub IsTwoByte : Text → Type 0
IsTwoByte = All (λ c. (128 ≤ c) × (c < 2048))

slice_to-odd : (t : Text) (n : ℕ) → IsTwoByte t → n % 2 ≡ 1 → slice_to t n ≡ none
unfolding slice_to
slice_to-odd t zero h odd = absurd (omega arith)
slice_to-odd [] (suc n) h odd = refl
slice_to-odd (c ∷ t) (suc n) h odd = ground (arith, slice_to-odd t (suc n - 2) h.1)

-- A cut falls on an odd byte, so a text of two-byte characters that is longer than the `n` tokens
-- it is cut to, with `n` not 0 and less than 2^64 bytes in the text, makes it panic.
pub truncate_two_byte_panics :
    (text : Text) (n : ℕ)
    → IsTwoByte text
    → 0 < n
    → n * 4 < byte_len text
    → byte_len text < 2 ^ 64
    → truncate_to_tokens text n ≡ panics
unfolding truncate_to_tokens
truncate_two_byte_panics text n two pos long small =
    let e : (n * 4) % 2 ^ 64 ≡ n * 4 = omega arith in
    ground (arith, e, slice_to-odd text ((n * 4) % 2 ^ 64 - 3) two (omega arith))
