-- ===== src/ClientV1/LocalItems/Objects.antt =====
-- src/qt/client/internal/local_client/ItemImpl.cpp: how objects are made, and the checks of the calls.
use storage_framework.Base.{ℕ, suc, ◌*◌, ◌/◌, Bool, false, not, ◌||◌, ◌++◌, is_empty}
use storage_framework.Base.Text.{Text, text, text_eq, starts_with}
use storage_framework.Base.Int.{ℤ, pos, negsuc, ◌+ℤ◌, ◌-ℤ◌}
use storage_framework.Base.Common.{ItemType}
use storage_framework.Local.Outcome.{FilesystemError}
use storage_framework.Local.FileSystem
use storage_framework.Local.FileSystem.{
  FileSystem, FileType, regular_file, directory_file, Stat, no_stat, mtime_of, is_directory,
  is_regular_file,
}
use storage_framework.Local.Guards.{times_nsecs}
use storage_framework.ClientV1.Exceptions.{StorageException, logic, invalid_argument}
use storage_framework.ClientV1.Exceptions
use storage_framework.ClientV1.World.{Object, M, ◌>>=◌, ◌>>◌, pure, look, throw_if, new_object}

abbrev pub tmpfile_prefix : Text
tmpfile_prefix = text ".storage-framework-"

-- What the code takes from elsewhere: texts of numbers and errors, `unfilled`, which is made of a
-- buffer that `stat` has not filled, and the fuel for the depth of folders.
pub record Env (fs : FileSystem) : Type 0 where
  pub to_string : ℤ → Text
  pub what : FilesystemError → Text
  pub unfilled : fs.State → Text × ℤ
  pub fuel : ℕ

abbrev pub times_msecs : ℤ → ℤ
times_msecs (pos n) = pos (n * 1000)
times_msecs (negsuc n) = pos 0 -ℤ pos (suc n * 1000)

module _ (fs : FileSystem) (env : Env fs) where
  abbrev pub Call : Type 0 → Type 0
  Call A = M fs.State A

  -- What `set_timestamps` makes of the file's status.
  unfoldable pub timestamps : fs.State → Stat → Text × ℤ
  timestamps s (no_stat errno message) = env.unfilled s
  timestamps s (mtime_of sec nsec) =
      (env.to_string (times_nsecs sec +ℤ pos nsec), times_msecs sec +ℤ pos (nsec / 1000000))

  -- `make_file` and `make_folder`, with the constructor of `ItemImpl`.
  unfoldable pub make_object : ItemType → Text → Object → Call ℕ
  unfolding timestamps
  make_object type identity parent = do
    p ← look (λ s. fs.canonical s identity)
    λ w.
        let t = timestamps w.fs (fs.stat w.fs identity) in
        new_object
          (record {
            identity = identity;
            name = fs.filename p;
            type = type;
            etag = t.0;
            modified_time = t.1;
            deleted = false;
            root = parent.root;
            account = parent.account;
          })
          w

  unfoldable pub is_reserved_path : Text → Bool
  is_reserved_path p = starts_with (fs.filename p) tmpfile_prefix

  -- The path that it returns is the name itself.
  unfoldable pub sanitize : Text → Text → Call Text
  sanitize name method = do
    throw_if (not (is_empty (fs.parent_path name))) (
        invalid_argument (
          method
          ++ (text ": name \"" ++ (name ++ text "\" contains more than one path component"))))
    throw_if
        (is_empty (fs.filename name)
          || (text_eq (fs.filename name) (text ".") || text_eq (fs.filename name) (text "..")))
        (invalid_argument (method ++ (text ": invalid name: \"" ++ (name ++ text "\""))))
    pure name

  unfoldable pub reserved : Text → StorageException
  reserved method =
      invalid_argument
        (method ++ (text ": names beginning with \"" ++ (tmpfile_prefix ++ text "\" are reserved")))

  abbrev pub throw_if_reserved : Text → Text → Call (Unit {0})
  throw_if_reserved method p = throw_if (is_reserved_path p) (reserved method)

  unfoldable pub exists_already : Text → Text → Text → Text → StorageException
  exists_already method shown identity name =
      Exceptions.exists
        (method ++ (text ": item with name \"" ++ (shown ++ text "\" exists already"))) identity
        name

  -- The exception has the identity and the name that the last arguments give.
  abbrev pub throw_if_exists : Text → Text → Text → Text → Text → Call (Unit {0})
  throw_if_exists method p shown identity name = do
    st ← look (λ s. fs.status s p)
    throw_if (FileSystem.exists st) (exists_already method shown identity name)

  unfoldable pub different_accounts : Text → Object → Text → StorageException
  different_accounts method this new_name = logic (
      method
      ++ (text ": source ("
          ++ (this.name
              ++ (text ") and target ("
                  ++ (new_name ++ text ") must belong to the same account")))))
