-- ===== src/Learning/Monad/Triple.antt =====
-- Preconditions and postconditions of actions, for every answer: `Q` holds after an `ok` answer, `E`
-- after an error or a panic.
use sovalune_core.Common.{
  ◌+◌, ◌≡◌, refl, Bool, true, false, Option, none, some, List, [], ◌∷◌, if◌then◌else◌,
}
use sovalune_core.Learning.Monad.{
  World, Error, Answer, ok, err, panicked, M, after, either, called, ◌>>=◌, ◌>>◌, pure, fail,
  handle, require, call,
}

abbrev pub Ends :
    {F A : Type 0} → (A → World F → Type 0) → (World F → Type 0) → Answer A → World F → Type 0
Ends Q E (ok a) w = Q a w
Ends Q E (err e) w = E w
Ends Q E panicked w = E w

abbrev pub Triple :
    {F A : Type 0}
    → (World F → Type 0)
    → M F A
    → (A → World F → Type 0)
    → (World F → Type 0)
    → Type 0
Triple {F} P m Q E = (w : World F) → P w → Ends Q E (m w).0 (m w).1

module _ {F : Type 0} (E : World F → Type 0) where
  bind_answer :
      {A B : Type 0} (Q : A → World F → Type 0) (R : B → World F → Type 0) (f : A → M F B)
      (r : Answer A) (w : World F)
      → Ends Q E r w
      → ((a : A) → Triple (Q a) (f a) R E)
      → Ends R E (after r w f).0 (after r w f).1
  bind_answer Q R f (ok a) w h k = k a w h
  bind_answer Q R f (err e) w h k = h
  bind_answer Q R f panicked w h k = h

  pub triple->>= :
      {A B : Type 0} (P : World F → Type 0) (Q : A → World F → Type 0) (R : B → World F → Type 0)
      (m : M F A) (f : A → M F B)
      → Triple P m Q E
      → ((a : A) → Triple (Q a) (f a) R E)
      → Triple P (m >>= f) R E
  unfolding ◌>>=◌
  triple->>= P Q R m f h k w p = bind_answer Q R f (m w).0 (m w).1 (h w p) k

  pub triple->> :
      {A B : Type 0} (P Q : World F → Type 0) (R : B → World F → Type 0) (m : M F A) (n : M F B)
      → Triple P m (λ _. Q) E
      → Triple Q n R E
      → Triple P (m >> n) R E
  unfolding ◌>>◌
  triple->> P Q R m n h k w p = bind_answer (λ _. Q) R (λ _. n) (m w).0 (m w).1 (h w p) (λ _. k)

  -- `P'` holds once the time has moved on, whatever the call then does
  pub triple-call :
      {A : Type 0} (P P' : World F → Type 0) (Q : A → World F → Type 0)
      (act : World F → Answer A × World F)
      → ((w : World F) (fs : List Bool) → P w → P' (record w { clock = w.clock + 1; faults = fs }))
      → ((w : World F) → P' w → E w)
      → Triple P' act Q E
      → Triple P (call act) Q E
  unfolding call
  triple-call P P' Q act later out h w p = go w.faults
    where
      go : (fs : List Bool) → Ends Q E (called fs act w).0 (called fs act w).1
      go [] = h _ (later w w.faults p)
      go (true ∷ rest) = out _ (later w rest p)
      go (false ∷ rest) = h _ (later w rest p)

  pub triple-require :
      {A : Type 0} (P : World F → Type 0) (Q : A → World F → Type 0) (x : Error) (o : Option A)
      → ((w : World F) → P w → E w)
      → ((a : A) (w : World F) → o ≡ some a → P w → Q a w)
      → Triple P (require x o) Q E
  unfolding require pure fail
  triple-require P Q x none out h w p = out w p
  triple-require P Q x (some a) out h w p = h a w refl p

  pub triple-handle :
      {A B : Type 0} (P : World F → Type 0) (Q : A → World F → Type 0) (R : B → World F → Type 0)
      (m : M F A) (f : A → M F B) (g : Error → M F B)
      → Triple P m Q E
      → ((a : A) → Triple (Q a) (f a) R E)
      → ((e : Error) → Triple E (g e) R E)
      → Triple P (handle m f g) R E
  unfolding handle
  triple-handle {A} {B} P Q R m f g h k l w p = go (m w).0 (m w).1 (h w p)
    where
      go :
          (r : Answer A) (w' : World F)
          → Ends Q E r w'
          → Ends R E (either r w' f g).0 (either r w' f g).1
      go (ok a) w' q = k a w' q
      go (err e) w' q = l e w' q
      go panicked w' q = q

  pub Ends-if :
      {A : Type 0} (Q : A → World F → Type 0) (b : Bool) (x y : Answer A × World F)
      → Ends Q E x.0 x.1
      → Ends Q E y.0 y.1
      → let r = (if b then x else y) in Ends Q E r.0 r.1
  Ends-if Q true x y h k = h
  Ends-if Q false x y h k = k

  -- to branch on a test that the proof of a branch may use
  pub triple_if :
      {A : Type 0} (P : World F → Type 0) (Q : A → World F → Type 0) (b : Bool) (m n : M F A)
      → (b ≡ true → Triple P m Q E)
      → (b ≡ false → Triple P n Q E)
      → Triple P (if b then m else n) Q E
  triple_if P Q true m n h k = h refl
  triple_if P Q false m n h k = k refl
