-- ===== src/ClientV1/Uploads/Finalize.antt =====
-- `UploadWorker::finalize` of src/qt/client/internal/local_client/UploaderImpl.cpp.
use storage_framework.Base.{
  Bool, true, false, not, ◌&&◌, Option, none, some, [], ◌∷◌, ◌++◌, if◌then◌else◌,
}
use storage_framework.Base.Text.{Text, text, text_eq}
use storage_framework.Base.Int.{ℤ, pos, ◌+ℤ◌}
use storage_framework.Local.FileSystem.{Stat, no_stat, mtime_of}
use storage_framework.Local.Guards.{times_nsecs}
use storage_framework.ClientV1.Exceptions.{StorageException, exists, conflict, resource}
use storage_framework.ClientV1.Future.{result, finished}
use storage_framework.ClientV1.Uploads.Worker.{
  Errno, Host, finalized, FileObject, UploadWorker, report, give_up,
}

module _ (h : Host) (to_string : ℤ → Text) where
  open h use {
    filename, parent_path, appended, unfilled, tmp_name, open_tmpfile, mkstemp, read_available,
    write, flush, file_error, create_new, close_new, canonical, unlink, linkat, rename, stat,
  }

  abbrev pub W : Type 0
  W = UploadWorker h.State

  unfoldable pub etag_of : Stat → Option Text
  etag_of (no_stat errno message) = none
  etag_of (mtime_of sec nsec) = some (to_string (times_nsecs sec +ℤ pos nsec))

  -- `ItemImpl::has_conflict`.
  unfoldable pub has_conflict : h.State → Text → Text → Bool
  unfolding etag_of
  has_conflict s path etag = elim (etag_of (stat s path)) [
    | some new_etag ↦ not (text_eq etag new_etag)
    | none ↦ true
  ]

  pub call_failed : Text → Errno → StorageException
  call_failed what (errno, message) = resource (what ++ message) errno

  -- The ETag that `ItemImpl::set_timestamps` sets.
  unfoldable pub set_timestamps : h.State → Text → Text
  unfolding etag_of
  set_timestamps s path = elim (etag_of (stat s path)) [ some etag ↦ etag | none ↦ unfilled s ]

  -- Closes the output file, reads the time stamps of the file again and makes the future ready.
  unfoldable pub succeed : W → W
  unfolding set_timestamps
  succeed w = report (result w.path ∷ finished ∷ []) (record w {
    state = finalized;
    output_open = some false;
    file = some (record { etag = set_timestamps w.host w.path; deleted = false });
  })

  link_failed : Text → Errno → W → StorageException
  unfolding call_failed
  link_failed call e w =
      call_failed
        (text "Uploader::finish_upload(): "
          ++ (call
              ++ (text " \""
                  ++ (tmp_name w.host ++ (text "\" to \"" ++ (w.path ++ text "\" failed: "))))))
        e

  -- Whether the temporary file has its new name.
  unfoldable pub linked : Option Errno → Text → W → W
  unfolding succeed link_failed
  linked none call w = succeed w
  linked (some e) call w = give_up (link_failed call e w) w

  unfoldable pub link_output : W → W
  unfolding linked
  link_output w =
      if w.use_linkat
      then (let r = linkat w.path (unlink w.path w.host) in
          linked r.0 (text "linkat") (record w { host = r.1 }))
      else let r = rename w.path w.host in linked r.0 (text "rename") (record w { host = r.1 })

  unfoldable pub is_deleted : Option FileObject → Bool
  is_deleted (some f) = f.deleted
  is_deleted none = false

  -- `native_identity` throws if the file was deleted or the runtime destroyed. Nothing catches that.
  unfoldable pub link_native : W → Option W
  unfolding link_output is_deleted
  link_native w = if w.root && not (is_deleted w.file) then some (link_output w) else none

  unfoldable pub flush_output : W → Option W
  unfolding link_native call_failed
  flush_output w =
      let r = flush w.host in
      if r.0
      then link_native (record w { host = r.1 })
      else some (
          give_up
            (call_failed (text "Uploader::finish_upload(): cannot flush output file: ")
              (file_error r.1))
            (record w { host = r.1 }))

  -- `FileImpl::make_file` throws where the path has no canonical form, and asserts that there is a
  -- root. Nothing catches that.
  unfoldable pub make_file : W → Option W
  unfolding flush_output set_timestamps
  make_file w =
      if canonical w.host w.path
      then if w.root
        then flush_output (record w {
          file = some (record { etag = set_timestamps w.host w.path; deleted = false });
        })
        else none
      else none

  unfoldable pub close_created : W → Option W
  unfolding make_file call_failed
  close_created w = elim (close_new w.host).0 [
    | none ↦ make_file (record w { host = (close_new w.host).1 })
    | some e ↦ some (
        give_up (call_failed (text "Uploader::finish_upload(): cannot close tmp file: ") e)
          (record w { host = (close_new w.host).1 }))
  ]

  -- Creates the file that an upload without a file object is for.
  unfoldable pub create_target : W → Option W
  unfolding close_created
  create_target w =
      let r = create_new w.path w.host in
      if r.0
      then close_created (record w { host = r.1 })
      else some (
          give_up
            (exists
              (text "Uploader::finish_upload(): item with name \""
                ++ (w.path ++ text "\" exists already"))
              w.path (filename w.path))
            (record w { host = r.1 }))

  unfoldable pub finalize : W → Option W
  unfolding create_target has_conflict flush_output
  finalize w = elim w.file [
    | some f ↦
        if has_conflict w.host w.path f.etag
        then some (give_up (conflict (text "Uploader::finish_upload(): ETag mismatch")) w)
        else flush_output w
    | none ↦ create_target w
  ]
