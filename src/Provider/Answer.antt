-- ===== src/Provider/Answer.antt =====
-- What a future of the provider library delivers: a value, or the exception that it was given.
use storage_framework.Base.{Bool, true, false}
use storage_framework.Errors.Exceptions.{StorageException}

pub data Answer (A : Type 0) : Type 0 where
  value : A → Answer A
  exception : StorageException → Answer A

infixl 5 ◌>>=◌ ◌>>◌
abbrev pub ◌>>=◌ : {A B : Type 0} → Answer A → (A → Answer B) → Answer B
value a >>= f = f a
exception e >>= f = exception e

abbrev pub ◌>>◌ : {B : Type 0} → Answer (Unit {0}) → Answer B → Answer B
m >> k = m >>= λ _. k

abbrev pub then_throw : Bool → StorageException → Answer (Unit {0})
then_throw true e = exception e
then_throw false e = value tt
