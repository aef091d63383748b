-- ===== src/Local/Ends.antt =====
-- How the local provider's calls end: src/local-provider/LocalProvider.cpp and utils.cpp.
pub mod Copies
pub mod Requests
use storage_framework.Base.{
  ℕ, zero, suc, ◌+◌, ◌≤◌, ◌<◌, Bool, true, false, not, ◌&&◌, ◌||◌, ◌≡◌, ◌≢◌, refl, List, [], ◌∷◌,
  length, is_empty, arith, if◌then◌else◌,
}
use storage_framework.Base.Text.{Text, text, text_eq}
use storage_framework.Base.Int.{ℤ}
use storage_framework.Errors.Exceptions.{StorageException}
use storage_framework.Local.Outcome
use storage_framework.Local.Outcome.{
  ◌>>=◌, Result, ok, fails, Outcome, returns, throws, filesystem_error, unfinished, check,
}
use storage_framework.Local.FileSystem.{
  FileSystem, FileStatus, FileType, file_not_found, regular_file, directory_file, other_file, Stat,
  no_stat, mtime_of, exists, is_directory,
}
use storage_framework.Local.Lawful.{All, IsBounded, is_failure}
use storage_framework.Local.Steps.{M, after, throw_if, run_if, for_each}
use storage_framework.Local.Guards.{
  stat_result, valid_id, canonical_id, throw_if_not_valid, throw_if_exists, throw_if_root, sanitize,
  get_mtime_nsecs, invoke_async,
}
use storage_framework.Local.Items.{describe, describe, make_item}
use storage_framework.Local.Operations.{
  item_at, list, lookup, metadata, create_folder, delete_item, move, by_type, copy_recursively,
  copy_entry, copy_through, copy_folder, copy_item, copy, Request, list_of, metadata_of, delete_of,
  lookup_of, create_folder_of, move_of, copy_of, Reply, reply_with, serve,
}

-- The code has come to an end.
abbrev pub ends : {A : Type 0} → Outcome A → Bool
ends unfinished = false
ends _ = true

pub after-ends :
    {S A B : Type 0} (o : Outcome A) (t : S) (f : A → M S B)
    → ends o ≡ true
    → ((a : A) → o ≡ returns a → ends (f a t).0 ≡ true)
    → ends (after o t f).0 ≡ true
unfolding after
after-ends (returns a) t f h k = k a refl
after-ends (throws e) t f h k = refl
after-ends (filesystem_error e) t f h k = refl
after-ends unfinished t f h k = absurd (cc)

pub check-ends : {A : Type 0} (r : Result A) → ends (check r) ≡ true
check-ends (ok a) = refl
check-ends (fails e) = refl

pub throw_if-ends :
    {S : Type 0} (b : Bool) (e : StorageException) (s : S) → ends (throw_if b e s).0 ≡ true
unfolding throw_if
throw_if-ends true e s = refl
throw_if-ends false e s = refl

pub run_if-ends :
    {S : Type 0} (b : Bool) (m : M S (Unit {0})) (s : S)
    → (b ≡ true → ends (m s).0 ≡ true)
    → ends (run_if b m s).0 ≡ true
unfolding run_if
run_if-ends true m s h = h refl
run_if-ends false m s h = refl

pub for_each-ends :
    {S A : Type 0} (P : A → Type 0) (f : A → M S (Unit {0}))
    → ((a : A) (s : S) → P a → ends (f a s).0 ≡ true)
    → (xs : List A) (s : S) → All P xs
    → ends (for_each f xs s).0 ≡ true
unfolding for_each
for_each-ends P f h [] s p = refl
for_each-ends P f h (x ∷ xs) s p =
    after-ends (f x s).0 _ _ (h x s p.0) (λ _ _. for_each-ends P f h xs (f x s).1 p.1)

pub check_ok : {A : Type 0} (r : Result A) (a : A) → check r ≡ returns a → r ≡ ok a
check_ok (ok x) a h = ground arith
check_ok (fails e) a h = absurd (cc)

bind-ends :
    {A B : Type 0} (o : Outcome A) (f : A → Outcome B)
    → ends o ≡ true
    → ((a : A) → ends (f a) ≡ true)
    → ends (o >>= f) ≡ true
bind-ends (returns a) f h k = k a
bind-ends (throws e) f h k = refl
bind-ends (filesystem_error e) f h k = refl
bind-ends unfinished f h k = absurd (cc)

refuse-ends : (b : Bool) (e : StorageException) → ends (Outcome.throw_if b e) ≡ true
refuse-ends true e = refl
refuse-ends false e = refl

module _ (fs : FileSystem) (root : Text) where
  canonical_id-ends :
      (method id : Text) (r : Result Text) → ends (canonical_id fs root method id r) ≡ true
  unfolding canonical_id valid_id
  canonical_id-ends method id (ok p) = search (bind-ends, refuse-ends)
  canonical_id-ends method id (fails e) = refl

  pub valid-ends :
      (s : fs.State) (method id : Text) → ends (throw_if_not_valid fs root s method id) ≡ true
  unfolding throw_if_not_valid
  valid-ends s method id = canonical_id-ends method id (fs.canonical s id)

  pub sanitize-ends : (method name : Text) → ends (sanitize fs method name) ≡ true
  unfolding sanitize
  sanitize-ends method name = search (bind-ends, refuse-ends)

  pub throw_if_exists-ends :
      (s : fs.State) (method p name : Text) → ends (throw_if_exists fs s method p name) ≡ true
  unfolding throw_if_exists
  throw_if_exists-ends s method p name = search (bind-ends, refuse-ends, check-ends)

  pub throw_if_root-ends :
      (s : fs.State) (message id : Text) → ends (throw_if_root fs s root message id) ≡ true
  unfolding throw_if_root
  throw_if_root-ends s message id = search (bind-ends, refuse-ends, check-ends)

  stat_result-ends : (method p : Text) (r : Stat) → ends (stat_result fs method p r) ≡ true
  unfolding stat_result
  stat_result-ends method p (no_stat n m) = refl
  stat_result-ends method p (mtime_of a b) = refl

  get_mtime_nsecs-ends :
      (s : fs.State) (method p : Text) → ends (get_mtime_nsecs fs s method p) ≡ true
  unfolding get_mtime_nsecs
  get_mtime_nsecs-ends s method p = stat_result-ends method p (fs.stat s p)

  module _ (to_string : ℤ → Text) (format_utc : ℤ → Text) (mime_type : Text → Text) where
    describe-ends :
        (s : fs.State) (method p : Text) (mtime : ℤ) (t : FileType)
        → ends (describe fs to_string format_utc mime_type root s method p mtime t) ≡ true
    unfolding describe
    describe-ends s method p mtime regular_file = search (bind-ends, check-ends)
    describe-ends s method p mtime directory_file = ground arith
    describe-ends s method p mtime other_file = refl
    describe-ends s method p mtime file_not_found = refl

    make_item-ends :
        (s : fs.State) (method p : Text) (st : FileStatus)
        → ends (make_item fs to_string format_utc mime_type root s method p st) ≡ true
    unfolding make_item
    make_item-ends s method p st =
        search (bind-ends, check-ends, get_mtime_nsecs-ends, describe-ends)

    pub item_at-ends :
        (method p : Text) (s : fs.State)
        → ends (item_at fs to_string format_utc mime_type root method p s).0 ≡ true
    item_at-ends method p s = after-ends _ _ _ (check-ends _) (λ st _. make_item-ends s method p st)
