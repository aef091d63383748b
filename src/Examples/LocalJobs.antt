-- ===== src/Examples/LocalJobs.antt =====
-- A file of three bytes in the root "/r" of a file system that has nothing else, and its download.
use storage_framework.Base.{true, false, ◌≡◌, refl, none, [], ◌∷◌, is_empty}
use storage_framework.Base.Text.{Text, text, text_eq, starts_with}
use storage_framework.Base.Int.{ℤ, pos}
use storage_framework.Base.Common.{file}
use storage_framework.Errors.Exceptions.{conflict}
use storage_framework.Provider.Completion.{Completion}
use storage_framework.Local.Outcome.{returns, throws, ok}
use storage_framework.Local.FileSystem.{
  FileSystem, FileStatus, regular_file, is_under, is_below, has_slash,
}
use storage_framework.Local.Guards.{throw_if_not_valid, get_mtime_nsecs}
use storage_framework.Local.Items.{Item, make_item, text_value, int64_value}
use storage_framework.Local.Steps.{after}
use storage_framework.Local.Operations.{metadata}
use storage_framework.Local.Jobs.{
  LocalDownload, Source, Channels, download, open_download, update, open_update,
}
use storage_framework.Local.Jobs.Sending.{read_some}
use storage_framework.Local.Jobs.Etags.{metadata-etag}
use storage_framework.Local.Jobs.Runs.{transfer, IsAccounted, transfer-IsAccounted}
use storage_framework.Examples.Folders.{folders, parent, last_name}

abbrev writable_file : FileStatus
writable_file = record { type = regular_file; owner_write = true; owner_exe = false }

abbrev one_file : FileSystem
one_file = record folders {
  canonical = λ s p. ok p;
  status = λ s p. ok writable_file;
  file_size = λ s p. ok 3;
}

abbrev to_string : ℤ → Text
to_string n = text "17"

abbrev name : Text
name = text "/r/f"

abbrev entry : Item
entry = record {
  item_id = name;
  parent_ids = text "/r" ∷ [];
  name = text "f";
  etag = text "17";
  type = file;
  metadata =
      (text "size_in_bytes", int64_value (pos 3))
      ∷ (text "free_space_bytes", int64_value (pos 4))
      ∷ (text "used_space_bytes", int64_value (pos 6))
      ∷ (text "last_modified_time", text_value [])
      ∷ (text "content_type", text_value [])
      ∷ (text "writable", int64_value (pos 1))
      ∷ [];
}

entry_lem : (metadata one_file to_string (λ n. []) (λ n. []) (text "/r") name []).0 ≡ returns entry
unfolding metadata after throw_if_not_valid is_under is_below starts_with text_eq make_item
    get_mtime_nsecs parent last_name has_slash
entry_lem = refl

abbrev bytes : Source
bytes = record { opened = none; content = 10 ∷ 11 ∷ 12 ∷ []; dup = none }

abbrev channels : Channels
channels = record { tmpfile_opened = true; mkstemp = none; dup = none }

abbrev fresh_job : Completion
fresh_job = record {
  id = text "1";
  read_socket = pos 5;
  write_socket = pos 6;
  closed = [];
  completed = false;
  failure = none;
  locked = false;
}

abbrev opened : LocalDownload
opened = record {
  base = fresh_job;
  item_id = name;
  file_size = 3;
  unread = 10 ∷ 11 ∷ 12 ∷ [];
  sent = [];
  bytes_to_write = pos 3;
  file_open = true;
  socket_open = true;
}

download_lem :
    download one_file to_string (text "/r") bytes fresh_job name (text "17") [] ≡ returns opened
unfolding download throw_if_not_valid is_under is_below starts_with text_eq get_mtime_nsecs
download_lem = refl

metadata-etag_example :
    (open_download one_file to_string (text "/r") bytes name (text "17") []
      ≡ open_download one_file to_string (text "/r") bytes name [] [])
    × (open_update one_file to_string (text "/r") channels name (text "17") []
        ≡ open_update one_file to_string (text "/r") channels name [] [])
    × ((e : Text)
        → is_empty e ≡ false
        → text_eq (text "17") e ≡ false
        → (download one_file to_string (text "/r") bytes fresh_job name e []
            ≡ throws (conflict (text "download(): ETag mismatch")))
          × (update one_file to_string (text "/r") channels fresh_job name (pos 3) e []
              ≡ throws (conflict (text "update(): ETag mismatch"))))
metadata-etag_example =
    metadata-etag one_file to_string (text "/r") (λ n. []) (λ n. []) name [] entry bytes channels
      fresh_job (pos 3) entry_lem refl

transfer-IsAccounted_example : IsAccounted to_string true (10 ∷ 11 ∷ 12 ∷ []) (
    transfer to_string true
      (read_some 2)
      (record { count = pos 2; file_error = pos 0; error_text = [] })
      ((record {
        bytes = 1;
        read = read_some 5;
        written = record { count = pos 1; file_error = pos 0; error_text = [] };
      })
        ∷ [])
      opened)
transfer-IsAccounted_example =
    transfer-IsAccounted to_string true one_file (text "/r") bytes fresh_job name (text "17") []
      opened (read_some 2) (record { count = pos 2; file_error = pos 0; error_text = [] })
      ((record {
        bytes = 1;
        read = read_some 5;
        written = record { count = pos 1; file_error = pos 0; error_text = [] };
      })
        ∷ [])
      refl refl download_lem
