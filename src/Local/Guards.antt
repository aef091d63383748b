-- ===== src/Local/Guards.antt =====
-- src/local-provider/utils.cpp, and `LocalProvider::throw_if_not_valid`.
use storage_framework.Base.{ℕ, ◌*◌, Bool, not, ◌||◌, ◌++◌, if◌then◌else◌, is_empty, suc, ◌-◌}
use storage_framework.Base.Text.{Text, text, text_eq, starts_with}
use storage_framework.Base.Int.{ℤ, pos, negsuc, ◌+ℤ◌, eqb_ℤ}
use storage_framework.Errors.Exceptions.{
  StorageException, not_exists, exists, permission, quota, invalid_argument, resource,
}
use storage_framework.Local.Outcome.{
  FilesystemError, Result, ok, fails, Outcome, returns, throws, filesystem_error, ◌>>=◌, ◌>>◌,
  throw_if, check,
}
use storage_framework.Local.FileSystem
use storage_framework.Local.FileSystem.{FileSystem, Stat, no_stat, mtime_of, is_under}

abbrev pub tmpfile_prefix : Text
tmpfile_prefix = text ".storage-framework"

abbrev pub nsecs_per_sec : ℕ
nsecs_per_sec = 1000000000

abbrev pub times_nsecs : ℤ → ℤ
times_nsecs (pos n) = pos (n * nsecs_per_sec)
times_nsecs (negsuc n) = negsuc (suc n * nsecs_per_sec - 1)

quoted : Text → Text
quoted s = text "\"" ++ (s ++ text "\"")

module _ (fs : FileSystem) where
  unfoldable pub stat_result : Text → Text → Stat → Outcome ℤ
  unfolding quoted
  stat_result method p (no_stat errno message) =
      throws
        (resource (method ++ (text ": cannot stat " ++ (quoted p ++ (text ": " ++ message)))) errno)
  stat_result method p (mtime_of sec nsec) = returns (times_nsecs sec +ℤ pos nsec)

  unfoldable pub get_mtime_nsecs : fs.State → Text → Text → Outcome ℤ
  unfolding stat_result
  get_mtime_nsecs s method p = stat_result method p (fs.stat s p)

  unfoldable pub is_reserved_path : Text → Bool
  is_reserved_path p = starts_with (fs.filename p) tmpfile_prefix

  -- The path that it returns is the name itself.
  unfoldable pub sanitize : Text → Text → Outcome Text
  unfolding is_reserved_path quoted
  sanitize method name = do
    throw_if (not (is_empty (fs.parent_path name))) (
        invalid_argument
          (method ++ (text ": name " ++ (quoted name ++ text " cannot contain a slash"))))
    throw_if
        (is_empty (fs.filename name)
          || (text_eq (fs.filename name) (text ".") || text_eq (fs.filename name) (text "..")))
        (invalid_argument (method ++ (text ": invalid name: " ++ quoted name)))
    throw_if (is_reserved_path (fs.filename name)) (
        invalid_argument (
          method
          ++ (text ": names beginning with \"" ++ (tmpfile_prefix ++ text "\" are reserved"))))
    returns name

  paths_of : FilesystemError → Text
  unfolding quoted
  paths_of e =
      if is_empty e.path2
      then quoted e.path1
      else text "src = " ++ (quoted e.path1 ++ (text ", target = " ++ quoted e.path2))

  -- `throw_storage_exception` for a `filesystem_error`, by its errno: EACCES, EPERM, ENOENT, EEXIST,
  -- ENOSPC and the others.
  unfoldable pub storage_exception : Text → FilesystemError → StorageException
  unfolding paths_of
  storage_exception method e =
      let msg : Text = method ++ (text ": " ++ (paths_of e ++ (text ": " ++ e.description))) in
      if eqb_ℤ e.code (pos 13) || eqb_ℤ e.code (pos 1)
      then permission msg
      else if eqb_ℤ e.code (pos 2)
      then not_exists msg e.path1
      else if eqb_ℤ e.code (pos 17)
      then exists msg e.path1 (fs.filename e.path1)
      else if eqb_ℤ e.code (pos 28)
      then quota msg
      else resource msg e.code

  unfoldable pub valid_id : Text → Text → Text → Text → Outcome (Unit {0})
  unfolding quoted
  valid_id root method id suspect_id = do
    throw_if (not (text_eq suspect_id id))
        (invalid_argument (method ++ (text ": invalid id: " ++ quoted id)))
    throw_if (not (is_under root id))
        (invalid_argument (method ++ (text ": invalid id: " ++ quoted id)))

  unfoldable pub canonical_id : Text → Text → Text → Result Text → Outcome (Unit {0})
  unfolding storage_exception valid_id
  canonical_id root method id (fails e) = throws (storage_exception method e)
  canonical_id root method id (ok suspect_id) = valid_id root method id suspect_id

  -- An id is valid if it is the canonical path of something, and that is the root or below it.
  unfoldable pub throw_if_not_valid : Text → fs.State → Text → Text → Outcome (Unit {0})
  unfolding canonical_id
  throw_if_not_valid root s method id = canonical_id root method id (fs.canonical s id)

  -- A target must not be there.
  unfoldable pub throw_if_exists : fs.State → Text → Text → Text → Outcome (Unit {0})
  throw_if_exists s method p name = do
    st ← check (fs.status s p)
    throw_if (FileSystem.exists st)
        (exists (method ++ (text ": \"" ++ (p ++ text "\" exists already"))) p name)

  unfoldable pub throw_if_root : fs.State → Text → Text → Text → Outcome (Unit {0})
  throw_if_root s root message id = do
    p ← check (fs.canonical s id)
    throw_if (text_eq p root) (permission message)

  -- The `catch` clauses of `invoke_async`; `unfinished` has no answer.
  unfoldable pub invoke_async : {A S : Type 0} → Text → Outcome A × S → Outcome A × S
  unfolding storage_exception
  invoke_async method (filesystem_error e, s) = (throws (storage_exception method e), s)
  invoke_async method (o, s) = (o, s)
