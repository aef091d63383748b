-- ===== src/Local/Operations.antt =====
-- src/local-provider/LocalProvider.cpp: the operations on files and folders. `root_path` is `root_`.
use storage_framework.Base.{
  ℕ, suc, zero, Bool, true, false, not, ◌||◌, List, [], ◌∷◌, ◌++◌, if◌then◌else◌,
}
use storage_framework.Base.Text.{Text, text}
use storage_framework.Base.Int.{ℤ}
use storage_framework.Errors.Exceptions.{logic}
use storage_framework.Local.Outcome.{
  ok, fails, Outcome, returns, filesystem_error, unfinished, check,
}
use storage_framework.Local.FileSystem.{
  FileSystem, FileType, regular_file, directory_file, is_directory, is_regular_file,
}
use storage_framework.Local.Guards.{
  is_reserved_path, sanitize, throw_if_not_valid, throw_if_exists, throw_if_root, tmpfile_prefix,
  invoke_async,
}
use storage_framework.Local.Items.{Item, make_item}
use storage_framework.Local.Steps.{M, ◌>>=◌, ◌>>◌, pure, read, act, throw_if, run_if, for_each}

module _ (fs : FileSystem) (to_string : ℤ → Text) (format_utc : ℤ → Text)
    (mime_type : Text → Text) where
  abbrev pub item_at : Text → Text → Text → M fs.State Item
  item_at root_path method p = do
    st ← read (λ s. check (fs.status s p))
    read (λ s. make_item fs to_string format_utc mime_type root_path s method p st)

  abbrev pub valid : Text → Text → Text → M fs.State (Unit {0})
  valid root_path method id = read (λ s. throw_if_not_valid fs root_path s method id)

  unfoldable pub roots : Text → M fs.State (List Item)
  roots root_path = do item ← item_at root_path (text "roots()") root_path; pure (item ∷ [])

  -- The entries that make items; a reserved one is hidden, and one that throws is passed over.
  keep_item : List Item → Outcome Item → List Item
  keep_item items (returns i) = i ∷ items
  keep_item items _ = items

  entry_item : Text → fs.State → Text → Text → Outcome Item
  entry_item root_path s method p = elim (fs.status s p) [
    | ok st ↦ make_item fs to_string format_utc mime_type root_path s method p st
    | fails e ↦ filesystem_error e
  ]

  unfoldable pub items_of : Text → fs.State → Text → List Text → List Item
  unfolding keep_item entry_item
  items_of root_path s method [] = []
  items_of root_path s method (p ∷ ps) =
      let rest : List Item = items_of root_path s method ps in
      if is_reserved_path fs p then rest else keep_item rest (entry_item root_path s method p)

  -- The page token that it gives is empty.
  unfoldable pub list : Text → Text → M fs.State (List Item × Text)
  list root_path item_id = do
    valid root_path (text "list()") item_id
    st ← read (λ s. check (fs.status s item_id))
    throw_if (not (is_directory st))
        (logic (text "list(): \"" ++ (item_id ++ text "\" is not a folder")))
    ps ← read (λ s. check (fs.entries s item_id))
    read (λ s. returns (items_of root_path s (text "list()") ps, []))

  unfoldable pub lookup : Text → Text → Text → M fs.State (List Item)
  lookup root_path parent_id name = do
    valid root_path (text "lookup()") parent_id
    n ← read (λ s. sanitize fs (text "lookup()") name)
    valid root_path (text "lookup()") (fs.append parent_id n)
    item ← item_at root_path (text "lookup()") (fs.append parent_id n)
    pure (item ∷ [])

  unfoldable pub metadata : Text → Text → M fs.State Item
  metadata root_path item_id = do
    valid root_path (text "metadata()") item_id
    item_at root_path (text "metadata()") item_id

  unfoldable pub create_folder : Text → Text → Text → M fs.State Item
  create_folder root_path parent_id name = do
    valid root_path (text "create_folder()") parent_id
    n ← read (λ s. sanitize fs (text "create_folder()") name)
    read (λ s. throw_if_exists fs s (text "create_folder()") (fs.append parent_id n) name)
    act (λ s. fs.create_directory s (fs.append parent_id n))
    item_at root_path (text "create_folder()") (fs.append parent_id n)

  unfoldable pub delete_item : Text → Text → M fs.State (Unit {0})
  delete_item root_path item_id = do
    valid root_path (text "delete_item()") item_id
    read (λ s. throw_if_root fs s root_path (text "delete_item(): cannot delete root") item_id)
    act (λ s. fs.remove_all s item_id)

  unfoldable pub move : Text → Text → Text → Text → M fs.State Item
  move root_path item_id new_parent_id new_name = do
    valid root_path (text "move()") item_id
    valid root_path (text "move()") new_parent_id
    n ← read (λ s. sanitize fs (text "move()") new_name)
    read (λ s. throw_if_exists fs s (text "move()") (fs.append new_parent_id n) new_name)
    read (λ s. throw_if_root fs s root_path (text "move(): cannot move root") item_id)
    act (λ s. fs.rename s item_id (fs.append new_parent_id n))
    item_at root_path (text "move()") (fs.append new_parent_id n)

  -- A file, a directory, or something that is passed over.
  unfoldable pub by_type :
      FileType → M fs.State (Unit {0}) → M fs.State (Unit {0}) → M fs.State (Unit {0})
  by_type regular_file f d = f
  by_type directory_file f d = d
  by_type _ f d = pure tt

  -- `fuel` bounds the depth of the folders.
  unfoldable pub copy_recursively : ℕ → Text → Text → M fs.State (Unit {0})
  copy_recursively zero source target = λ s. (unfinished, s)
  copy_recursively (suc fuel) source target = run_if (not (is_reserved_path fs source)) (do
    st ← read (λ s. check (fs.status s source))
    by_type st.type (act (λ s. fs.copy_file s source target)) (do
      act (λ s. fs.copy_directory s source target)
      es ← read (λ s. check (fs.entries s source))
      for_each (λ e. copy_recursively fuel e (fs.append target (fs.filename e))) es))

  -- One entry of the folder that is copied.
  unfoldable pub copy_entry : ℕ → Text → Text → M fs.State (Unit {0})
  copy_entry fuel tmp_path e = run_if (not (is_reserved_path fs e)) (do
    st ← read (λ s. check (fs.status s e))
    run_if (is_directory st || is_regular_file st)
        (copy_recursively fuel e (fs.append tmp_path (fs.filename e))))

  -- The copy is made in a temporary folder, which is renamed in the end.
  unfoldable pub copy_through : ℕ → Text → Text → Text → M fs.State (Unit {0})
  copy_through fuel item_id tmp_path target_path = do
    act (λ s. fs.create_directories s tmp_path)
    es ← read (λ s. check (fs.entries s item_id))
    for_each (copy_entry fuel tmp_path) es
    act (λ s. fs.rename s tmp_path target_path)

  unfoldable pub copy_folder : ℕ → Text → Text → Text → Text → M fs.State (Unit {0})
  copy_folder fuel item_id new_parent_id target_path new_name = do
    read (λ s. throw_if_exists fs s (text "copy()") target_path new_name)
    parent ← read (λ s. check (fs.canonical s new_parent_id))
    λ s.
        copy_through fuel item_id
          (fs.append parent (fs.unique_path s (tmpfile_prefix ++ text "-%%%%-%%%%-%%%%-%%%%")))
          target_path s

  unfoldable pub copy_item : Bool → ℕ → Text → Text → Text → Text → M fs.State (Unit {0})
  copy_item true fuel item_id new_parent_id target_path new_name =
      copy_folder fuel item_id new_parent_id target_path new_name
  copy_item false fuel item_id new_parent_id target_path new_name =
      act (λ s. fs.copy_file s item_id target_path)

  unfoldable pub copy : ℕ → Text → Text → Text → Text → M fs.State Item
  unfolding copy_item
  copy fuel root_path item_id new_parent_id new_name = do
    valid root_path (text "copy()") item_id
    valid root_path (text "copy()") new_parent_id
    n ← read (λ s. sanitize fs (text "copy()") new_name)
    st ← read (λ s. check (fs.status s item_id))
    copy_item (is_directory st) fuel item_id new_parent_id (fs.append new_parent_id n) new_name
    item_at root_path (text "copy()") (fs.append new_parent_id n)

-- The calls that the provider runs to their end: `roots` is left out, and create_file, update and
-- download, which open a job (Local/Jobs).
pub data Request : Type 0 where
  list_of metadata_of delete_of : Text → Request
  lookup_of create_folder_of : Text → Text → Request
  move_of copy_of : Text → Text → Text → Request

pub data Reply : Type 0 where
  page : List Item × Text → Reply
  items : List Item → Reply
  item : Item → Reply
  done : Unit {0} → Reply

unfoldable pub reply_with : {S A : Type 0} → (A → Reply) → M S A → M S Reply
reply_with f m = do a ← m; pure (f a)

module _ (fs : FileSystem) (to_string : ℤ → Text) (format_utc : ℤ → Text) (mime_type : Text → Text)
    (fuel : ℕ) where
  -- The operation, and `invoke_async` around it.
  unfoldable pub serve : Text → Request → fs.State → Outcome Reply × fs.State
  unfolding reply_with
  serve r (list_of id) s =
      invoke_async fs (text "list()")
        (reply_with page (list fs to_string format_utc mime_type r id) s)
  serve r (metadata_of id) s =
      invoke_async fs (text "metadata()")
        (reply_with item (metadata fs to_string format_utc mime_type r id) s)
  serve r (delete_of id) s =
      invoke_async fs (text "delete_item()")
        (reply_with done (delete_item fs to_string format_utc mime_type r id) s)
  serve r (lookup_of id name) s =
      invoke_async fs (text "lookup()")
        (reply_with items (lookup fs to_string format_utc mime_type r id name) s)
  serve r (create_folder_of id name) s =
      invoke_async fs (text "create_folder()")
        (reply_with item (create_folder fs to_string format_utc mime_type r id name) s)
  serve r (move_of id parent name) s =
      invoke_async fs (text "move()")
        (reply_with item (move fs to_string format_utc mime_type r id parent name) s)
  serve r (copy_of id parent name) s =
      invoke_async fs (text "copy()")
        (reply_with item (copy fs to_string format_utc mime_type fuel r id parent name) s)
