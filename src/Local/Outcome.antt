-- ===== src/Local/Outcome.antt =====
-- What a call of the local provider's code ends with, and state passing over it.
use storage_framework.Base.{Bool, true, false}
use storage_framework.Base.Text.{Text}
use storage_framework.Base.Int.{ℤ}
use storage_framework.Errors.Exceptions.{StorageException}

-- A `boost::filesystem::filesystem_error`.
pub record FilesystemError : Type 0 where
  pub path1 : Text
  pub path2 : Text
  pub description : Text
  pub code : ℤ

-- A function of boost::filesystem returns or throws a `filesystem_error`.
pub data Result (A : Type 0) : Type 0 where
  ok : A → Result A
  fails : FilesystemError → Result A

-- The code returns, throws one of the provider's exceptions, or lets a `filesystem_error` through.
-- `unfinished` is a loop that has not come to its end within its fuel.
pub data Outcome (A : Type 0) : Type 0 where
  returns : A → Outcome A
  throws : StorageException → Outcome A
  filesystem_error : FilesystemError → Outcome A
  unfinished : Outcome A

abbrev pub check : {A : Type 0} → Result A → Outcome A
check (ok a) = returns a
check (fails e) = filesystem_error e

infixl 5 ◌>>=◌ ◌>>◌
abbrev pub ◌>>=◌ : {A B : Type 0} → Outcome A → (A → Outcome B) → Outcome B
returns a >>= f = f a
throws e >>= f = throws e
filesystem_error e >>= f = filesystem_error e
unfinished >>= f = unfinished

abbrev pub ◌>>◌ : {B : Type 0} → Outcome (Unit {0}) → Outcome B → Outcome B
m >> k = m >>= λ _. k

abbrev pub throw_if : Bool → StorageException → Outcome (Unit {0})
throw_if true e = throws e
throw_if false e = returns tt
