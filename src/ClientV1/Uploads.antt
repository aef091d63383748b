-- ===== src/ClientV1/Uploads.antt =====
-- src/qt/client/internal/local_client/UploaderImpl.cpp: the worker of an upload, whose slots run in a
-- thread of its own.
pub mod Worker
pub mod Finalize
pub mod Runs
pub mod Finishing
pub mod Settled
pub mod Contents
pub mod Targets
pub mod Reading
pub mod Results
unfoldable pub use Worker.*
unfoldable pub use Finalize.*
use storage_framework.Base.{
  ℕ, ◌+◌, Bool, true, false, not, ◌&&◌, Option, none, some, List, [], ◌∷◌, ◌++◌, ◌==◌,
  if◌then◌else◌, is_empty, length,
}
use storage_framework.Base.Text.{Text, text, text_eq}
use storage_framework.Base.Int.{ℤ, pos, negsuc, ◌+ℤ◌, eqb_ℤ}
use storage_framework.Local.FileSystem.{Stat, no_stat, mtime_of}
use storage_framework.Local.Guards.{times_nsecs}
use storage_framework.ClientV1.Exceptions.{
  StorageException, exists, conflict, cancelled, logic, resource,
}
use storage_framework.ClientV1.Future.{Report, exception, result, finished, is_finished}

module _ (h : Host) (to_string : ℤ → Text) where
  open h use {parent_path, appended, open_tmpfile, mkstemp, read_available, write, file_error}

  size_mismatch : W h to_string → StorageException
  size_mismatch w = logic (
      text "Uploader::finish_upload(): "
      ++ (w.path
          ++ (text ": upload size of "
              ++ (to_string (pos w.size)
                  ++ (text " does not match actual number of bytes read: "
                      ++ to_string (pos w.bytes_read))))))

  -- What `do_finish` does in each state; `none` is `abort()`.
  unfoldable pub finish_in : State → W h to_string → Option (W h to_string)
  unfolding finalize size_mismatch
  finish_in in_progress w =
      if w.bytes_read == w.size
      then finalize h to_string (record w { state = finalized })
      else some (report_exception (size_mismatch w) w)
  finish_in finalized w = none
  finish_in cancelled_ w =
      some (report_exception (cancelled (text "Uploader::finish_upload(): upload was cancelled")) w)
  finish_in error w = some (report_exception (resource w.error_msg w.error_code) w)

  unfoldable pub quit_if_finished : Option (W h to_string) → Option (W h to_string)
  quit_if_finished none = none
  quit_if_finished (some w) = some (if is_finished w.reports then record w { quit = true } else w)

  unfoldable pub do_finish : W h to_string → Option (W h to_string)
  unfolding finish_in quit_if_finished
  do_finish w = quit_if_finished (finish_in w.state w)

  unfoldable pub do_cancel : W h to_string → Option (W h to_string)
  unfolding do_finish
  do_cancel w = elim w.state [
    | in_progress ↦ do_finish (record w { socket_open = false; state = cancelled_ })
    | _ ↦ some w
  ]

  -- Closing the output file that there is not is a null dereference.
  unfoldable pub close_output : W h to_string → Option (W h to_string)
  close_output w = elim w.state [
    | in_progress ↦ elim w.output_open [
      | some o ↦ some (record w { output_open = some false; socket_open = false })
      | none ↦ none
    ]
    | _ ↦ some w
  ]

  unfoldable pub fail_with : Text → ℤ → Option (W h to_string) → Option (W h to_string)
  unfolding do_finish
  fail_with msg code none = none
  fail_with msg code (some w) =
      do_finish
        (record w { state = error; error_msg = text "Uploader: " ++ msg; error_code = code })

  unfoldable pub handle_error : Text → ℤ → W h to_string → Option (W h to_string)
  unfolding close_output fail_with
  handle_error msg code w = fail_with msg code (close_output w)

  -- What became of a write of `n` bytes.
  unfoldable pub wrote : ℤ → ℕ → W h to_string → Option (W h to_string)
  unfolding handle_error
  wrote r n w =
      if eqb_ℤ r (negsuc 0)
      then handle_error (text "socket error: " ++ (file_error w.host).1) (file_error w.host).0 w
      else if eqb_ℤ r (pos n)
      then some w
      else handle_error
          (text "write error, requested "
            ++ (to_string (pos n) ++ (text " B, but wrote only " ++ (appended r ++ text " B."))))
          (pos 0) w

  unfoldable pub on_bytes_ready : W h to_string → Option (W h to_string)
  unfolding wrote
  on_bytes_ready w =
      let r = read_available w.host in
      if is_empty r.0
      then some (record w { host = r.1 })
      else (let o = write r.0 r.1 in
          wrote o.0 (length r.0) (record w { host = o.1; bytes_read = w.bytes_read + length r.0 }))

  unfoldable pub on_read_channel_finished : W h to_string → Option (W h to_string)
  unfolding on_bytes_ready do_finish
  on_read_channel_finished w = elim (on_bytes_ready w) [ none ↦ none | some v ↦ do_finish v ]

  -- `start_uploading`. Where the anonymous file cannot be made a named one is.
  unfoldable pub start_uploading : W h to_string → Option (W h to_string)
  unfolding handle_error
  start_uploading w =
      let dir = parent_path w.path in
      let r = open_tmpfile dir w.host in
      if r.0
      then some (record w { host = r.1; output_open = some true; initialized = true })
      else elim (mkstemp dir r.1).0 [
        | none ↦ some (record w {
          host = (mkstemp dir r.1).1;
          use_linkat = false;
          output_open = some true;
          initialized = true;
        })
        | some e ↦
            handle_error
              (text "cannot create temp file \""
                ++ (dir ++ (text "/.storage-framework-XXXXXX\": " ++ e.1)))
              e.0 (record w { host = (mkstemp dir r.1).1; use_linkat = false; initialized = true })
      ]
