-- ===== src/Storage/Ordering.antt =====
-- crates/sovalune-storage-client/src/repositories/session.rs: `ORDER BY created_at` and `LIMIT` on rows that a newer one is added to.
use sovalune_core.Common.{
  ℕ, zero, suc, ◌≤◌, ◌<◌, ◌≡◌, refl, ap, ◌∙◌, List, [], ◌∷◌, ◌++◌, length, arith,
}
use sovalune_core.Storage.{limit_to, oldest_first, insert_oldest, newest_first, insert_newest}

-- every row is older than a time
unfoldable pub AllBefore : {A : Type 0} → (A → ℕ) → ℕ → List A → Type 0
AllBefore created now [] = Unit
AllBefore created now (a ∷ rest) = (created a < now) × AllBefore created now rest

module _ {A : Type 0} (created : A → ℕ) where
  pub insert_oldest_append :
      (r n : A) (rows : List A)
      → created r ≤ created n
      → insert_oldest created r (rows ++ n ∷ []) ≡ insert_oldest created r rows ++ n ∷ []
  unfolding insert_oldest
  insert_oldest_append r n [] le = ground arith
  insert_oldest_append r n (s ∷ ss) le = ground (arith, insert_oldest_append r n ss le)

  pub oldest_first_append :
      (rows : List A) (n : A)
      → AllBefore created (created n) rows
      → oldest_first created (rows ++ n ∷ []) ≡ oldest_first created rows ++ n ∷ []
  unfolding oldest_first insert_oldest AllBefore
  oldest_first_append [] n all = refl
  oldest_first_append (r ∷ rows) n (le, all) =
      rw (oldest_first_append rows n all)
        (insert_oldest_append r n (oldest_first created rows) (omega (arith, le)))

  pub insert_oldest-length :
      (r : A) (rows : List A) → length (insert_oldest created r rows) ≡ suc (length rows)
  unfolding insert_oldest
  insert_oldest-length r [] = refl
  insert_oldest-length r (s ∷ ss) = ground (arith, insert_oldest-length r ss)

  pub oldest_first-length : (rows : List A) → length (oldest_first created rows) ≡ length rows
  unfolding oldest_first
  oldest_first-length [] = refl
  oldest_first-length (r ∷ rows) =
      insert_oldest-length r (oldest_first created rows) ∙ ap suc (oldest_first-length rows)

  insert_newest_before :
      (r n : A) (rows : List A)
      → created r < created n
      → insert_newest created r (n ∷ rows) ≡ n ∷ insert_newest created r rows
  unfolding insert_newest
  insert_newest_before r n rows lt = ground arith

  pub newest_first_append :
      (rows : List A) (n : A)
      → AllBefore created (created n) rows
      → newest_first created (rows ++ n ∷ []) ≡ n ∷ newest_first created rows
  unfolding newest_first insert_newest AllBefore
  newest_first_append [] n all = refl
  newest_first_append (r ∷ rows) n (lt, all) =
      rw (newest_first_append rows n all) (insert_newest_before r n (newest_first created rows) lt)

  pub insert_newest-AllBefore :
      (r : A) (now : ℕ) (rows : List A)
      → created r < now
      → AllBefore created now rows
      → AllBefore created now (insert_newest created r rows)
  unfolding insert_newest AllBefore
  insert_newest-AllBefore r now [] lt all = (lt, tt)
  insert_newest-AllBefore r now (s ∷ ss) lt (le, all) =
      ground (arith, insert_newest-AllBefore r now ss lt all)

  pub newest_first-AllBefore :
      (now : ℕ) (rows : List A)
      → AllBefore created now rows
      → AllBefore created now (newest_first created rows)
  unfolding newest_first AllBefore
  newest_first-AllBefore now [] all = tt
  newest_first-AllBefore now (r ∷ rows) (lt, all) =
      insert_newest-AllBefore r now (newest_first created rows) lt
        (newest_first-AllBefore now rows all)

  pub limit_to-AllBefore :
      (now : ℕ) (rows : List A) (n : ℕ)
      → AllBefore created now rows
      → AllBefore created now (limit_to rows n)
  unfolding limit_to AllBefore
  limit_to-AllBefore now [] n all = tt
  limit_to-AllBefore now (r ∷ rows) zero all = tt
  limit_to-AllBefore now (r ∷ rows) (suc n) (lt, all) = (lt, limit_to-AllBefore now rows n all)

  pub insert_oldest_last :
      (n : A) (rows : List A)
      → AllBefore created (created n) rows
      → insert_oldest created n rows ≡ rows ++ n ∷ []
  unfolding insert_oldest AllBefore
  insert_oldest_last n [] all = refl
  insert_oldest_last n (r ∷ rows) (lt, all) = ground (arith, insert_oldest_last n rows all)

  pub insert_oldest-AllBefore :
      (r : A) (now : ℕ) (rows : List A)
      → created r < now
      → AllBefore created now rows
      → AllBefore created now (insert_oldest created r rows)
  unfolding insert_oldest AllBefore
  insert_oldest-AllBefore r now [] lt all = (lt, tt)
  insert_oldest-AllBefore r now (s ∷ ss) lt (le, all) =
      ground (arith, insert_oldest-AllBefore r now ss lt all)

  pub oldest_first-AllBefore :
      (now : ℕ) (rows : List A)
      → AllBefore created now rows
      → AllBefore created now (oldest_first created rows)
  unfolding oldest_first AllBefore
  oldest_first-AllBefore now [] all = tt
  oldest_first-AllBefore now (r ∷ rows) (lt, all) =
      insert_oldest-AllBefore r now (oldest_first created rows) lt
        (oldest_first-AllBefore now rows all)

pub limit_to_append :
    {A : Type 0} (rows more : List A) (n : ℕ)
    → n ≤ length rows
    → limit_to (rows ++ more) n ≡ limit_to rows n
unfolding limit_to
limit_to_append [] [] n le = refl
limit_to_append [] (a ∷ more) zero le = refl
limit_to_append [] (a ∷ more) (suc n) le = absurd (omega (arith, le))
limit_to_append (r ∷ rows) more zero le = refl
limit_to_append (r ∷ rows) more (suc n) le =
    ap (λ rest. r ∷ rest) (limit_to_append rows more n (omega (arith, le)))
