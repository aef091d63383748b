-- ===== src/Local/Rules.antt =====
-- Rules for what a sequence of calls does to the state, whatever each ends with.
use storage_framework.Base.{Bool, true, false, ◌≡◌, refl, List, [], ◌∷◌}
use storage_framework.Errors.Exceptions.{StorageException}
use storage_framework.Local.Outcome.{Outcome, returns, throws, filesystem_error, unfinished}
use storage_framework.Local.Lawful.{All}
use storage_framework.Local.Steps.{M, after, throw_if, run_if, for_each}

module _ {S : Type 0} (R : S → S → Type 0) (same : (s : S) → R s s)
    (then : (s t u : S) → R s t → R t u → R s u) where
  pub after_rule :
      {A B : Type 0} (s t : S) (o : Outcome A) (f : A → M S B)
      → R s t
      → ((a : A) → o ≡ returns a → R t (f a t).1)
      → R s (after o t f).1
  unfolding after
  after_rule s t (returns a) f r h = then s t _ r (h a refl)
  after_rule s t (throws e) f r h = r
  after_rule s t (filesystem_error e) f r h = r
  after_rule s t unfinished f r h = r

  -- After a call that only looks.
  pub look_rule :
      {A B : Type 0} (s : S) (o : Outcome A) (f : A → M S B)
      → ((a : A) → o ≡ returns a → R s (f a s).1)
      → R s (after o s f).1
  look_rule s o f h = after_rule s s o f (same s) h

  pub throw_if_rule :
      {B : Type 0} (s : S) (b : Bool) (e : StorageException) (f : Unit {0} → M S B)
      → (b ≡ false → R s (f tt s).1)
      → R s (after (throw_if b e s).0 (throw_if b e s).1 f).1
  unfolding throw_if after
  throw_if_rule s true e f h = same s
  throw_if_rule s false e f h = h refl

  pub run_if_rule :
      (s : S) (b : Bool) (m : M S (Unit {0})) → (b ≡ true → R s (m s).1) → R s (run_if b m s).1
  unfolding run_if
  run_if_rule s true m h = h refl
  run_if_rule s false m h = same s

  -- A loop whose rounds want something that they keep.
  pub for_each_rule :
      {A : Type 0} (I : S → Type 0) (P : A → Type 0) (f : A → M S (Unit {0}))
      → ((s t : S) → R s t → I s → I t)
      → ((a : A) (s : S) → I s → P a → R s (f a s).1)
      → (xs : List A) (s : S) → I s
      → All P xs
      → R s (for_each f xs s).1
  unfolding for_each
  for_each_rule I P f keeps body [] s i p = same s
  for_each_rule I P f keeps body (x ∷ xs) s i p =
      after_rule s (f x s).1 (f x s).0 _ (body x s i p.0) (λ _ _.
        for_each_rule I P f keeps body xs (f x s).1 (keeps s (f x s).1 (body x s i p.0) i) p.1)
