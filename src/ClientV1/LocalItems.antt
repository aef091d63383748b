-- ===== src/ClientV1/LocalItems.antt =====
-- src/qt/client/internal/local_client/ItemImpl.cpp: the operations on files and folders. The part of a
-- call that runs at once has the name of the method, what it starts in another thread ends in `_task`.
pub mod Objects
pub mod Copies
pub mod Folders
pub mod Requests
pub mod Deleted
pub mod Marks
pub mod Handled
pub mod Ends
unfoldable pub use Objects.*
unfoldable pub use Copies.*
use storage_framework.Base.{
  ℕ, zero, suc, ◌*◌, ◌/◌, Bool, true, false, not, ◌||◌, Option, none, some, List, [], ◌∷◌, ◌++◌,
  ◌==◌, if◌then◌else◌, is_empty,
}
use storage_framework.Base.Text.{Text, text, text_eq, starts_with}
use storage_framework.Base.Int.{ℤ, pos, negsuc, ◌+ℤ◌, ◌-ℤ◌}
use storage_framework.Base.Common.{ItemType, file, folder, root}
use storage_framework.Local.Outcome.{FilesystemError}
use storage_framework.Local.FileSystem
use storage_framework.Local.FileSystem.{
  FileSystem, FileType, regular_file, directory_file, Stat, no_stat, mtime_of, is_directory,
  is_regular_file,
}
use storage_framework.Local.Guards.{times_nsecs}
use storage_framework.ClientV1.Exceptions.{StorageException, logic, invalid_argument}
use storage_framework.ClientV1.Exceptions
use storage_framework.ClientV1.World.{
  unfinished, Object, M, ◌>>=◌, ◌>>◌, pure, look, act, throw_if, run_if, for_each, deref,
  new_object, mark_deleted, throw_if_destroyed, native_identity, storage_exception, try_,
}

module _ (fs : FileSystem) (env : Env fs) where
  -- A folder stays one, all else becomes a file.
  abbrev pub moved_type : ItemType → ItemType
  moved_type folder = folder
  moved_type _ = file

  abbrev pub is_root : ItemType → Bool
  is_root root = true
  is_root _ = false

  -- The `try` block of the move.
  unfoldable pub move_to : ℕ → Object → Object → Text → Call fs env ℕ
  move_to i this parent new_name = do
    dir ← native_identity parent
    n ← sanitize fs env new_name (text "Item::move()")
    throw_if_exists fs env (text "Item::move()") (fs.append dir n) new_name this.identity this.name
    throw_if_reserved fs env (text "Item::move()") (fs.append dir n)
    source ← native_identity this
    act (λ s. fs.rename s source (fs.append dir n))
    mark_deleted i this
    make_object fs env (moved_type this.type) (fs.append dir n) parent

  unfoldable pub move_task : ℕ → ℕ → Text → Call fs env ℕ
  move_task i p new_name = do
    both ← both_alive fs env (text "Item::move()") i p
    throw_if (not (both.0.account == both.1.account))
        (different_accounts fs env (text "Item::move()") both.0 new_name)
    throw_if (is_root both.0.type) (logic (text "Item::move(): cannot move root folder"))
    try_ (storage_exception env.what (text "Item::move(): ")) (move_to i both.0 both.1 new_name)

  unfoldable pub move : ℕ → Option ℕ → Text → Call fs env ℕ
  move i none new_name =
      throw_if true (invalid_argument (text "Item::move(): new_parent cannot be nullptr")) >> pure i
  move i (some p) new_name =
      both_alive fs env (text "Item::move()") i p >>= λ _. move_task i p new_name

  unfoldable pub alive : Text → ℕ → Call fs env Object
  alive method i = do this ← deref i; throw_if_destroyed method this; pure this

  unfoldable pub delete_task : ℕ → Call fs env (Unit {0})
  delete_task i = do
    this ← alive (text "Item::delete_item()") i
    try_ (storage_exception env.what (text "Item::delete_item()"))
        (do p ← native_identity this; act (λ s. fs.remove_all s p); mark_deleted i this)

  -- `RootImpl` has a version of its own.
  unfoldable pub delete_item : ℕ → Call fs env (Unit {0})
  delete_item i = do
    this ← alive (text "Item::delete_item()") i
    throw_if (is_root this.type) (logic (text "Item::delete_item(): cannot delete root folder"))
    delete_task i

  -- The folder in which an item is, as an object of its own; a root has none.
  unfoldable pub parents : ℕ → Call fs env (List Text)
  parents i = do
    this ← alive (text "Item::parents()") i
    p ← native_identity this
    elim this.type [
      | root ↦ pure []
      | _ ↦
          if text_eq (fs.parent_path p) this.root
          then pure (this.root ∷ [])
          else make_object fs env folder (fs.parent_path p) this >>= λ _.
              pure (fs.parent_path p ∷ [])
    ]

  unfoldable pub parent_ids : ℕ → Call fs env (List Text)
  parent_ids i = do
    this ← alive (text "Item::parent_ids()") i
    p ← native_identity this
    pure (elim this.type [ root ↦ [] | _ ↦ fs.parent_path p ∷ [] ])

  unfoldable pub etag : ℕ → Call fs env Text
  etag i = do this ← alive (text "Item::etag()") i; pure this.etag

  unfoldable pub last_modified_time : ℕ → Call fs env ℤ
  last_modified_time i = do
    this ← alive (text "Item::last_modified_time()") i
    pure this.modified_time

  -- `equal_to`: `i == j` stands for the comparison of the two pointers.
  unfoldable pub equal_to : ℕ → ℕ → Call fs env Bool
  equal_to i j = do
    this ← deref i
    other ← deref j
    pure (
        if i == j
        then true
        else if this.deleted || other.deleted
        then false
        else text_eq this.identity other.identity)
