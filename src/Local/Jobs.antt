-- ===== src/Local/Jobs.antt =====
-- The uploads and downloads of the local provider: the constructors of src/local-provider/LocalUploadJob.cpp,
-- and LocalDownloadJob.cpp. `Completion` is the part that the base class keeps; making it comes first.
pub mod Opening
pub mod Etags
pub mod Sending
pub mod Chunks
pub mod Runs
use storage_framework.Base.{
  ℕ, Bool, true, false, not, ◌&&◌, ◌≡◌, Option, none, some, List, [], ◌∷◌, ◌++◌, if◌then◌else◌,
  is_empty, length, checked, ◌-◌, ◌*◌,
}
use storage_framework.Base.Text.{Text, text, text_eq}
use storage_framework.Base.Int.{ℤ, pos, negsuc, ◌-ℤ◌, ltb_ℤ, eqb_ℤ}
use storage_framework.Errors.Exceptions.{StorageException, logic, conflict, resource}
use storage_framework.Errors.Exceptions
use storage_framework.Provider.Answer.{Answer, value, exception}
use storage_framework.Provider.Completion.{Completion, report_download_error, report_complete}
use storage_framework.Provider.Upload.{LocalUpload, in_progress, Written}
use storage_framework.Local.Outcome.{
  Result, ok, fails, Outcome, returns, throws, filesystem_error, unfinished, check, ◌>>=◌, ◌>>◌,
  throw_if,
}
use storage_framework.Local.FileSystem
use storage_framework.Local.FileSystem.{FileSystem, is_regular_file}
use storage_framework.Local.Guards.{
  throw_if_not_valid, sanitize, storage_exception, get_mtime_nsecs,
}

-- An error number with its text.
abbrev pub Errno : Type 0
Errno = ℤ × Text

-- What the calls of `prepare_channels` answer: `open` with O_TMPFILE, then `mkstemp`, and `dup`. The
-- name of the temporary file is in the message.
pub record Channels : Type 0 where
  pub tmpfile_opened : Bool
  pub mkstemp : Option Errno
  pub dup : Option Errno

failed_call : Text → Errno → StorageException
failed_call what (errno, message) = resource (what ++ message) errno

unfoldable pub throw_errno : Text → Option Errno → Outcome (Unit {0})
unfolding failed_call
throw_errno what none = returns tt
throw_errno what (some e) = throws (failed_call what e)

-- Whether the file is linked into place in the end, and not renamed.
unfoldable pub prepare_channels : Text → Text → Channels → Outcome Bool
unfolding throw_errno
prepare_channels method parent_path c = do
  throw_errno
      (method
        ++ (text ": cannot create temp file \""
            ++ (parent_path ++ text "/.storage-framework-%%%%-%%%%-%%%%-%%%%\": ")))
      (if c.tmpfile_opened then none else c.mkstemp)
  throw_errno (method ++ text ": dup() failed: ") c.dup
  returns c.tmpfile_opened

module _ (fs : FileSystem) (to_string : ℤ → Text) (root : Text) where
  unfoldable pub file_only : Text → Text → fs.State → Outcome (Unit {0})
  file_only method p s = elim (fs.status s p) [
    | ok st ↦
        throw_if (not (is_regular_file st))
          (logic (method ++ (text ": \"" ++ (p ++ text "\" is not a file"))))
    | fails e ↦ throws (storage_exception fs method e)
  ]

  unfoldable pub throw_if_changed : Text → Text → Text → fs.State → Outcome (Unit {0})
  throw_if_changed method p etag s = if is_empty etag then returns tt else do
    mtime ← get_mtime_nsecs fs s method p
    throw_if (not (text_eq (to_string mtime) etag)) (conflict (method ++ text ": ETag mismatch"))

  throw_if_taken : Bool → Text → Text → Text → fs.State → Outcome (Unit {0})
  throw_if_taken allow_overwrite method p name s = if allow_overwrite then returns tt else do
    st ← check (fs.status s p)
    throw_if (FileSystem.exists st)
        (Exceptions.exists (method ++ (text ": \"" ++ (p ++ text "\" exists already"))) p name)

  unfoldable pub new_upload : Completion → ℤ → Text → Text → Bool → LocalUpload
  new_upload base size method item_id use_linkat = record {
    base = base;
    size = size;
    bytes_to_write = size;
    method = method;
    state = in_progress;
    item_id = item_id;
    old_etag = [];
    parent_id = [];
    allow_overwrite = false;
    use_linkat = use_linkat;
    file = [];
    file_open = true;
    unlinked = false;
    linked = none;
    tmp_removed = false;
  }

  unfoldable pub create_file :
      Channels → Completion → Text → Text → ℤ → Bool → fs.State → Outcome LocalUpload
  unfolding throw_if_taken new_upload
  create_file c base parent_id name size allow_overwrite s = do
    throw_if_not_valid fs root s (text "create_file()") parent_id
    n ← sanitize fs (text "create_file()") name
    throw_if_taken allow_overwrite (text "create_file()") (fs.append parent_id n) n s
    use_linkat ← prepare_channels (text "create_file()") (fs.parent_path (fs.append parent_id n)) c
    returns
        (record (new_upload base size (text "create_file()") (fs.append parent_id n) use_linkat) {
          parent_id = parent_id;
          allow_overwrite = allow_overwrite;
        })

  -- What the constructor checks and opens.
  unfoldable pub open_update : Channels → Text → Text → fs.State → Outcome Bool
  unfolding file_only throw_if_changed
  open_update c item_id old_etag s = do
    throw_if_not_valid fs root s (text "update()") item_id
    file_only (text "update()") item_id s
    throw_if_changed (text "update()") item_id old_etag s
    prepare_channels (text "update()") (fs.parent_path item_id) c

  unfoldable pub update : Channels → Completion → Text → ℤ → Text → fs.State → Outcome LocalUpload
  unfolding new_upload open_update
  update c base item_id size old_etag s = do
    use_linkat ← open_update c item_id old_etag s
    returns
        (record (new_upload base size (text "update()") item_id use_linkat) { old_etag = old_etag })

-- `unread` is what the open file still has, `sent` what was written to the socket.
pub record LocalDownload : Type 0 where
  pub base : Completion
  pub item_id : Text
  pub file_size : ℕ
  pub unread : List ℕ
  pub sent : List ℕ
  pub bytes_to_write : ℤ
  pub file_open : Bool
  pub socket_open : Bool

-- `QFile::open`, with the file's content, and `dup`.
pub record Source : Type 0 where
  pub opened : Option Errno
  pub content : List ℕ
  pub dup : Option Errno

module _ (fs : FileSystem) (to_string : ℤ → Text) (root : Text) where
  file_error : ℤ → Text
  file_error code = text " (QFileDevice::FileError = " ++ (to_string code ++ text ")")

  unfoldable pub open_source : Text → Option Errno → Outcome (Unit {0})
  unfolding file_error
  open_source item_id none = returns tt
  open_source item_id (some (code, message)) = throws (
      resource
        (text "download(): : cannot open \""
          ++ (item_id ++ (text "\": " ++ (message ++ file_error code))))
        code)

  -- What the constructor checks and opens.
  unfoldable pub open_download : Source → Text → Text → fs.State → Outcome (Unit {0})
  unfolding file_only throw_if_changed open_source throw_errno
  open_download source item_id match_etag s = do
    throw_if_not_valid fs root s (text "download()") item_id
    file_only fs to_string root (text "download()") item_id s
    throw_if_changed fs to_string root (text "download()") item_id match_etag s
    open_source item_id source.opened
    throw_errno (text "LocalDownloadJob(): dup() failed: ") source.dup

  unfoldable pub download : Source → Completion → Text → Text → fs.State → Outcome LocalDownload
  unfolding open_download
  download source base item_id match_etag s = do
    open_download source item_id match_etag s
    returns (record {
      base = base;
      item_id = item_id;
      file_size = length source.content;
      unread = source.content;
      sent = [];
      bytes_to_write = pos (length source.content);
      file_open = true;
      socket_open = true;
    })
