-- ===== src/ClientV1/LocalItems/Requests.antt =====
-- The calls of one object of the local client: src/qt/client/internal/local_client.
use storage_framework.Base.{ℕ, Bool, some, List}
use storage_framework.Base.Text.{Text, text}
use storage_framework.Base.Int.{ℤ}
use storage_framework.Local.FileSystem.{FileSystem}
use storage_framework.ClientV1.World.{Object, M, ◌>>=◌, pure}
use storage_framework.ClientV1.LocalItems.{
  Env, copy, move, delete_item, parents, parent_ids, etag, last_modified_time,
}
use storage_framework.ClientV1.LocalItems.Folders.{
  Paths, UploaderArgs, list, lookup, create_folder, create_file, name, name_method, size,
  create_uploader, create_downloader, free_space_bytes, used_space_bytes, get,
}

-- The calls that test whether the item was deleted, but `native_identity`, `type`, `creation_time` and
-- those for the metadata, which return what they have. `equal_to` and `root` do not test it and are not here.
pub data Request : Type 0 where
  copy_of move_of : ℕ → Text → Request
  lookup_of create_folder_of get_of : Text → Request
  create_file_of : Text → ℤ → Request
  create_uploader_of : Bool → ℤ → Request
  delete_of parents_of parent_ids_of etag_of time_of name_of list_of size_of downloader_of : Request
  free_space_of used_space_of : Request

pub data Reply : Type 0 where
  item : ℕ → Reply
  items : List ℕ → Reply
  texts : List Text → Reply
  one_text : Text → Reply
  number : ℤ → Reply
  bytes : ℕ → Reply
  uploader : UploaderArgs → Reply
  done : Unit {0} → Reply

unfoldable pub reply_with : {S A : Type 0} → (A → Reply) → M S A → M S Reply
reply_with f m = do a ← m; pure (f a)

-- What the exceptions call the method.
abbrev pub method_of : Request → Object → Text
method_of (copy_of p n) o = text "Item::copy()"
method_of (move_of p n) o = text "Item::move()"
method_of (lookup_of n) o = text "Folder::lookup()"
method_of (create_folder_of n) o = text "Folder::create_folder()"
method_of (get_of p) o = text "Root::get()"
method_of (create_file_of n z) o = text "Folder::create_file()"
method_of (create_uploader_of b z) o = text "File::create_uploader()"
method_of delete_of o = text "Item::delete_item()"
method_of parents_of o = text "Item::parents()"
method_of parent_ids_of o = text "Item::parent_ids()"
method_of etag_of o = text "Item::etag()"
method_of time_of o = text "Item::last_modified_time()"
method_of name_of o = name_method o.type
method_of list_of o = text "Folder::list()"
method_of size_of o = text "File::size()"
method_of downloader_of o = text "File::create_downloader()"
method_of free_space_of o = text "Root::free_space_bytes()"
method_of used_space_of o = text "Root::used_space_bytes()"

module _ (fs : FileSystem) (env : Env fs) (paths : Paths) where
  unfoldable pub serve : Request → ℕ → M fs.State Reply
  unfolding reply_with
  serve (copy_of p n) i = reply_with item (copy fs env i (some p) n)
  serve (move_of p n) i = reply_with item (move fs env i (some p) n)
  serve (lookup_of n) i = reply_with items (lookup fs env i n)
  serve (create_folder_of n) i = reply_with item (create_folder fs env i n)
  serve (get_of p) i = reply_with item (get fs env paths i p)
  serve (create_file_of n z) i = reply_with uploader (create_file fs env i n z)
  serve (create_uploader_of b z) i = reply_with uploader (create_uploader fs env i b z)
  serve delete_of i = reply_with done (delete_item fs env i)
  serve parents_of i = reply_with texts (parents fs env i)
  serve parent_ids_of i = reply_with texts (parent_ids fs env i)
  serve etag_of i = reply_with one_text (etag fs env i)
  serve time_of i = reply_with number (last_modified_time fs env i)
  serve name_of i = reply_with one_text (name fs env i)
  serve list_of i = reply_with items (list fs env i)
  serve size_of i = reply_with bytes (size fs env i)
  serve downloader_of i = reply_with one_text (create_downloader fs env i)
  serve free_space_of i = reply_with bytes (free_space_bytes fs env i)
  serve used_space_of i = reply_with number (used_space_bytes fs env i)
