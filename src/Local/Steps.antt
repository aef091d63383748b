-- ===== src/Local/Steps.antt =====
-- Calls that read and change the file system, in order.
use storage_framework.Base.{Bool, true, false, List, [], ◌∷◌}
use storage_framework.Errors.Exceptions.{StorageException}
use storage_framework.Local.Outcome.{
  Result, Outcome, returns, throws, filesystem_error, unfinished, check,
}

abbrev pub M : Type 0 → Type 0 → Type 0
M S A = S → Outcome A × S

-- What comes after a step that has ended with an outcome.
unfoldable pub after : {S A B : Type 0} → Outcome A → S → (A → M S B) → Outcome B × S
after (returns a) t f = f a t
after (throws e) t f = (throws e, t)
after (filesystem_error e) t f = (filesystem_error e, t)
after unfinished t f = (unfinished, t)

infixl 5 ◌>>=◌ ◌>>◌
abbrev pub ◌>>=◌ : {S A B : Type 0} → M S A → (A → M S B) → M S B
◌>>=◌ m f s = after (m s).0 (m s).1 f

abbrev pub ◌>>◌ : {S B : Type 0} → M S (Unit {0}) → M S B → M S B
m >> k = m >>= λ _. k

abbrev pub pure : {S A : Type 0} → A → M S A
pure a s = (returns a, s)

-- A call that only looks.
abbrev pub read : {S A : Type 0} → (S → Outcome A) → M S A
read f s = (f s, s)

-- A function of boost::filesystem that changes something.
abbrev pub act : {S A : Type 0} → (S → Result A × S) → M S A
act f s = (check (f s).0, (f s).1)

unfoldable pub throw_if : {S : Type 0} → Bool → StorageException → M S (Unit {0})
throw_if true e s = (throws e, s)
throw_if false e s = (returns tt, s)

-- `if (b) m`.
unfoldable pub run_if : {S : Type 0} → Bool → M S (Unit {0}) → M S (Unit {0})
run_if true m = m
run_if false m = pure tt

unfoldable pub for_each : {S A : Type 0} → (A → M S (Unit {0})) → List A → M S (Unit {0})
for_each f [] = pure tt
for_each f (x ∷ xs) = f x >> for_each f xs
