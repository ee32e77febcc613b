-- ===== src/Learning/Monad/Run.antt =====
-- Running an action from a world: how a chain goes on from the answer of its first step.
use sovalune_core.Common.{◌+◌, ◌≡◌, ap, Bool, true, List, [], ◌∷◌}
use sovalune_core.Learning.Monad.{
  World, Error, database, Answer, ok, err, M, after, called, ◌>>=◌, ◌>>◌, call,
}

module _ {F A B : Type 0} (m : M F A) where
  pub >>=_ok : (f : A → M F B) {w w' : World F} {a : A} → m w ≡ (ok a, w') → (m >>= f) w ≡ f a w'
  unfolding ◌>>=◌
  >>=_ok f e = ap (λ (r : Answer A × World F). after r.0 r.1 f) e

  pub >>=_err :
      (f : A → M F B) {w w' : World F} {x : Error} → m w ≡ (err x, w') → (m >>= f) w ≡ (err x, w')
  unfolding ◌>>=◌
  >>=_err f e = ap (λ (r : Answer A × World F). after r.0 r.1 f) e

  pub >>_ok : (k : M F B) {w w' : World F} {a : A} → m w ≡ (ok a, w') → (m >> k) w ≡ k w'
  unfolding ◌>>◌
  >>_ok k e = ap (λ (r : Answer A × World F). after r.0 r.1 (λ _. k)) e

  pub >>_err :
      (k : M F B) {w w' : World F} {x : Error} → m w ≡ (err x, w') → (m >> k) w ≡ (err x, w')
  unfolding ◌>>◌
  >>_err k e = ap (λ (r : Answer A × World F). after r.0 r.1 (λ _. k)) e

-- the world one database call later
abbrev pub tick : {F : Type 0} → World F → World F
tick w = record w { clock = w.clock + 1 }

-- a call that does not fail
pub call_run :
    {F A : Type 0} (act : World F → Answer A × World F) (w : World F)
    → w.faults ≡ []
    → call act w ≡ act (tick w)
unfolding call
call_run act w e = ap (λ fs. called fs act w) e

-- a call that fails changes no table
pub call_fault :
    {F A : Type 0} (act : World F → Answer A × World F) (w : World F) (rest : List Bool)
    → w.faults ≡ true ∷ rest
    → call act w ≡ (err database, record w { clock = w.clock + 1; faults = rest })
unfolding call
call_fault act w rest e = ap (λ fs. called fs act w) e
