-- ===== src/Local/Items.antt =====
-- src/local-provider/LocalProvider.cpp: what an item says of a file or a folder.
pub use storage_framework.Base.Common.{ItemType, file, folder, root}
use storage_framework.Base.{suc, ◌/◌, Bool, true, false, ◌&&◌, List, [], ◌∷◌, ◌++◌, if◌then◌else◌}
use storage_framework.Base.Text.{Text, text}
use storage_framework.Base.Int.{ℤ, pos, negsuc, ◌-ℤ◌}
use storage_framework.Errors.Exceptions.{not_exists}
use storage_framework.Local.Outcome.{Outcome, returns, throws, check, ◌>>=◌}
use storage_framework.Local.FileSystem.{
  FileSystem, FileType, regular_file, directory_file, FileStatus,
}
use storage_framework.Local.Guards.{get_mtime_nsecs, nsecs_per_sec}

pub data MetadataValue : Type 0 where
  text_value : Text → MetadataValue
  int64_value : ℤ → MetadataValue

pub record Item : Type 0 where
  pub item_id : Text
  pub parent_ids : List Text
  pub name : Text
  pub etag : Text
  pub type : ItemType
  pub metadata : List (Text × MetadataValue)

-- The conversion of a `bool`.
abbrev pub as_int64 : Bool → ℤ
as_int64 true = pos 1
as_int64 false = pos 0

-- Division that rounds towards zero.
abbrev pub whole_secs : ℤ → ℤ
whole_secs (pos n) = pos (n / nsecs_per_sec)
whole_secs (negsuc n) = pos 0 -ℤ pos (suc n / nsecs_per_sec)

-- `std::to_string`, `strftime` over `gmtime_r` by ISO 8601, and the MIME database by file name.
module _ (fs : FileSystem) (to_string : ℤ → Text) (format_utc : ℤ → Text)
    (mime_type : Text → Text) where
  make_iso_date : ℤ → Text
  make_iso_date nsecs = format_utc (whole_secs nsecs)

  get_content_type : Text → ItemType → Text
  get_content_type name file = mime_type name
  get_content_type name _ = text "inode/directory"

  is_writable : FileStatus → ItemType → Bool
  is_writable st file = st.owner_write
  is_writable st _ = st.owner_write && st.owner_exe

  -- The members that depend on what is there. The metadata comes in the order of its insertion.
  unfoldable pub describe : Text → fs.State → Text → Text → ℤ → FileType → Outcome Item
  describe root_path s method p mtime regular_file = do
    size ← check (fs.file_size s p)
    returns (record {
      item_id = p;
      parent_ids = fs.parent_path p ∷ [];
      name = fs.filename p;
      etag = to_string mtime;
      type = file;
      metadata = (text "size_in_bytes", int64_value (pos size)) ∷ [];
    })
  describe root_path s method p mtime directory_file =
      if fs.path_eq p root_path
      then returns (record {
        item_id = p;
        parent_ids = [];
        name = text "/";
        etag = [];
        type = root;
        metadata = [];
      })
      else returns (record {
        item_id = p;
        parent_ids = fs.parent_path p ∷ [];
        name = fs.filename p;
        etag = [];
        type = folder;
        metadata = [];
      })
  describe root_path s method p mtime _ =
      throws
        (not_exists (method ++ (text ": \"" ++ (p ++ text "\" is neither a file nor a folder"))) p)

  unfoldable pub make_item : Text → fs.State → Text → Text → FileStatus → Outcome Item
  unfolding describe make_iso_date get_content_type is_writable
  make_item root_path s method p st = do
    mtime ← get_mtime_nsecs fs s method p
    item ← describe root_path s method p mtime st.type
    info ← check (fs.space s p)
    returns (record item {
      metadata =
          item.metadata
          ++ ((text "free_space_bytes", int64_value (pos info.available))
              ∷ (text "used_space_bytes", int64_value (pos info.capacity -ℤ pos info.available))
              ∷ (text "last_modified_time", text_value (make_iso_date mtime))
              ∷ (text "content_type", text_value (get_content_type p item.type))
              ∷ (text "writable", int64_value (as_int64 (is_writable st item.type)))
              ∷ []);
    })
