-- ===== src/ClientV1/World.antt =====
-- The file system and the objects of the local client, which share it: src/qt/client/internal/ItemBase.cpp,
-- src/qt/client/internal/RootBase.cpp and the exceptions that leave a call,
-- src/qt/client/internal/local_client/storage_exception.cpp.
use storage_framework.Base.{
  ℕ, zero, suc, Bool, true, false, ◌||◌, Option, none, some, List, [], ◌∷◌, ◌++◌, if◌then◌else◌,
  length,
}
use storage_framework.Base.Text.{Text, text}
use storage_framework.Base.Int.{ℤ, pos, eqb_ℤ}
use storage_framework.Base.Common.{ItemType}
use storage_framework.Local.Outcome.{FilesystemError, Result, ok, fails}
use storage_framework.ClientV1.Exceptions.{
  StorageException, deleted, runtime_destroyed, not_exists, permission, quota, resource,
}

-- A call returns, throws one of the client's exceptions, or lets a `filesystem_error` through. A loop may
-- be `unfinished` within its fuel, and a handle may be `dangling`.
pub data Answer (A : Type 0) : Type 0 where
  returns : A → Answer A
  throws : StorageException → Answer A
  filesystem_error : FilesystemError → Answer A
  unfinished dangling : Answer A

-- An `ItemImpl`. Its root is known by the identity and by the account that it belongs to.
pub record Object : Type 0 where
  pub identity : Text
  pub name : Text
  pub type : ItemType
  pub etag : Text
  pub modified_time : ℤ
  pub deleted : Bool
  pub root : Text
  pub account : ℕ

-- `alive` tells of each account whether it and its runtime are still there.
pub record World (S : Type 0) : Type 0 where
  pub fs : S
  pub objects : List Object
  pub alive : ℕ → Bool

abbrev pub object : List Object → ℕ → Option Object
object [] n = none
object (o ∷ os) zero = some o
object (o ∷ os) (suc n) = object os n

abbrev pub set_object : List Object → ℕ → Object → List Object
set_object [] n x = []
set_object (o ∷ os) zero x = x ∷ os
set_object (o ∷ os) (suc n) x = o ∷ set_object os n x

abbrev pub M : Type 0 → Type 0 → Type 0
M S A = World S → Answer A × World S

-- What comes after a step that has ended.
unfoldable pub after : {S A B : Type 0} → Answer A → World S → (A → M S B) → Answer B × World S
after (returns a) t f = f a t
after (throws e) t f = (throws e, t)
after (filesystem_error e) t f = (filesystem_error e, t)
after unfinished t f = (unfinished, t)
after dangling t f = (dangling, t)

infixl 5 ◌>>=◌ ◌>>◌
abbrev pub ◌>>=◌ : {S A B : Type 0} → M S A → (A → M S B) → M S B
◌>>=◌ m f s = after (m s).0 (m s).1 f

abbrev pub ◌>>◌ : {S B : Type 0} → M S (Unit {0}) → M S B → M S B
m >> k = m >>= λ _. k

abbrev pub pure : {S A : Type 0} → A → M S A
pure a s = (returns a, s)

abbrev pub answer_of : {A : Type 0} → Result A → Answer A
answer_of (ok a) = returns a
answer_of (fails e) = filesystem_error e

-- A call of boost::filesystem that only looks, and one that changes something.
abbrev pub look : {S A : Type 0} → (S → Result A) → M S A
look f s = (answer_of (f s.fs), s)

abbrev pub act : {S A : Type 0} → (S → Result A × S) → M S A
act f s = (answer_of (f s.fs).0, record s { fs = (f s.fs).1 })

unfoldable pub throw_if : {S : Type 0} → Bool → StorageException → M S (Unit {0})
throw_if true e s = (throws e, s)
throw_if false e s = (returns tt, s)

unfoldable pub run_if : {S : Type 0} → Bool → M S (Unit {0}) → M S (Unit {0})
run_if true m = m
run_if false m = pure tt

unfoldable pub for_each : {S A : Type 0} → (A → M S (Unit {0})) → List A → M S (Unit {0})
for_each f [] = pure tt
for_each f (x ∷ xs) = f x >> for_each f xs

found : Option Object → Answer Object
found (some o) = returns o
found none = dangling

-- The object that a pointer points to.
unfoldable pub deref : {S : Type 0} → ℕ → M S Object
unfolding found
deref i s = (found (object s.objects i), s)

unfoldable pub new_object : {S : Type 0} → Object → M S ℕ
new_object o s = (returns (length s.objects), record s { objects = s.objects ++ o ∷ [] })

unfoldable pub mark_deleted : {S : Type 0} → ℕ → Object → M S (Unit {0})
mark_deleted i o s =
    (returns tt, record s { objects = set_object s.objects i (record o { deleted = true }) })

-- `ItemBase::throw_if_destroyed`, with `get_root`.
unfoldable pub throw_if_destroyed : {S : Type 0} → Text → Object → M S (Unit {0})
throw_if_destroyed method o s =
    if o.deleted
    then (
      throws (
          deleted (method ++ (text ": \"" ++ (o.identity ++ text "\" was deleted previously")))
            o.identity),
      s,
    )
    else if s.alive o.account
    then (returns tt, s)
    else (throws (runtime_destroyed method), s)

unfoldable pub native_identity : {S : Type 0} → Object → M S Text
native_identity o = do throw_if_destroyed (text "Item::native_identity()") o; pure o.identity

-- `throw_storage_exception`, by the error's number: EACCES, EPERM, EDQUOT, ENOSPC and the others.
unfoldable pub storage_exception :
    (FilesystemError → Text) → Text → FilesystemError → StorageException
storage_exception what method e =
    let msg : Text = method ++ (text ": " ++ what e) in
    if eqb_ℤ e.code (pos 13) || eqb_ℤ e.code (pos 1)
    then permission msg
    else if eqb_ℤ e.code (pos 122) || eqb_ℤ e.code (pos 28)
    then quota msg
    else resource msg e.code

-- `throw_storage_exception` with a key, for ENOENT.
unfoldable pub storage_exception_for :
    (FilesystemError → Text) → Text → Text → FilesystemError → StorageException
unfolding storage_exception
storage_exception_for what method key e =
    if eqb_ℤ e.code (pos 2)
    then not_exists (method ++ (text ": " ++ what e)) key
    else storage_exception what method e

-- A `try` block whose handler turns a `filesystem_error` into an exception of ours.
unfoldable pub catching :
    {S A : Type 0} → (FilesystemError → StorageException) → Answer A × World S → Answer A × World S
catching f (filesystem_error e, s) = (throws (f e), s)
catching f (a, s) = (a, s)

abbrev pub try_ : {S A : Type 0} → (FilesystemError → StorageException) → M S A → M S A
try_ f m s = catching f (m s)
