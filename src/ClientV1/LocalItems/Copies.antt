-- ===== src/ClientV1/LocalItems/Copies.antt =====
-- src/qt/client/internal/local_client/ItemImpl.cpp: `copy`.
use storage_framework.Base.{ℕ, zero, suc, true, not, ◌||◌, Option, none, some, ◌++◌, ◌==◌}
use storage_framework.Base.Text.{Text, text}
use storage_framework.Base.Common.{ItemType, file, folder}
use storage_framework.Local.FileSystem.{
  FileSystem, FileType, regular_file, directory_file, is_directory, is_regular_file,
}
use storage_framework.ClientV1.Exceptions.{invalid_argument}
use storage_framework.ClientV1.World.{
  unfinished, Object, ◌>>=◌, ◌>>◌, pure, look, act, throw_if, run_if, for_each, deref,
  throw_if_destroyed, native_identity, storage_exception, try_,
}
use storage_framework.ClientV1.LocalItems.Objects.{
  Env, Call, make_object, is_reserved_path, sanitize, throw_if_reserved, throw_if_exists,
  different_accounts, tmpfile_prefix,
}

module _ (fs : FileSystem) (env : Env fs) where
  unfoldable pub by_type :
      FileType → Call fs env (Unit {0}) → Call fs env (Unit {0}) → Call fs env (Unit {0})
  by_type regular_file f d = f
  by_type directory_file f d = d
  by_type _ f d = pure tt

  unfoldable pub copy_recursively : ℕ → Text → Text → Call fs env (Unit {0})
  copy_recursively zero source target = λ s. (unfinished, s)
  copy_recursively (suc fuel) source target = run_if (not (is_reserved_path fs env source)) (do
    st ← look (λ s. fs.status s source)
    by_type st.type (act (λ s. fs.copy_file s source target)) (do
      act (λ s. fs.copy_directory s source target)
      es ← look (λ s. fs.entries s source)
      for_each (λ e. copy_recursively fuel e (fs.append target (fs.filename e))) es))

  unfoldable pub copy_entry : Text → Text → Call fs env (Unit {0})
  copy_entry tmp_path e = run_if (not (is_reserved_path fs env e)) (do
    st ← look (λ s. fs.status s e)
    run_if (is_directory st || is_regular_file st)
        (copy_recursively env.fuel e (fs.append tmp_path (fs.filename e))))

  -- The copy is made in a temporary folder, which is renamed in the end.
  unfoldable pub copy_folder : Text → Text → Text → Call fs env (Unit {0})
  copy_folder source parent target = do
    dir ← look (λ s. fs.canonical s parent)
    λ w.
        let tmp =
          fs.append dir (fs.unique_path w.fs (tmpfile_prefix ++ text "%%%%-%%%%-%%%%-%%%%")) in
        (do
          act (λ s. fs.create_directories s tmp)
          es ← look (λ s. fs.entries s source)
          for_each (copy_entry tmp) es
          act (λ s. fs.rename s tmp target))
          w

  -- What is copied is a file or a folder with all that is in it.
  unfoldable pub made_copy : ItemType → Text → Text → Text → Object → Call fs env ℕ
  made_copy type source dir target parent = elim type [
    | file ↦ do act (λ s. fs.copy_file s source target); make_object fs env file target parent
    | _ ↦ do copy_folder source dir target; make_object fs env folder target parent
  ]

  -- The `try` block of the copy.
  unfoldable pub copy_to : Object → Object → Text → Call fs env ℕ
  copy_to this parent new_name = do
    source ← native_identity this
    dir ← native_identity parent
    n ← sanitize fs env new_name (text "Item::copy()")
    throw_if_reserved fs env (text "Item::copy()") (fs.append dir n)
    throw_if_exists fs env (text "Item::copy()") (fs.append dir n) new_name this.identity this.name
    made_copy this.type source dir (fs.append dir n) parent

  -- What both threads check.
  unfoldable pub both_alive : Text → ℕ → ℕ → Call fs env (Object × Object)
  both_alive method i p = do
    this ← deref i
    parent ← deref p
    throw_if_destroyed method this
    throw_if_destroyed method parent
    pure (this, parent)

  unfoldable pub copy_task : ℕ → ℕ → Text → Call fs env ℕ
  copy_task i p new_name = do
    both ← both_alive (text "Item::copy()") i p
    throw_if (not (both.0.account == both.1.account))
        (different_accounts fs env (text "Item::copy()") both.0 new_name)
    try_ (storage_exception env.what (text "Item::copy()")) (copy_to both.0 both.1 new_name)

  -- `none` is a null pointer for the new parent.
  unfoldable pub copy : ℕ → Option ℕ → Text → Call fs env ℕ
  copy i none new_name =
      throw_if true (invalid_argument (text "Item::copy(): new_parent cannot be nullptr")) >> pure i
  copy i (some p) new_name = both_alive (text "Item::copy()") i p >>= λ _. copy_task i p new_name
