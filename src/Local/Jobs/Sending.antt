-- ===== src/Local/Jobs/Sending.antt =====
-- src/local-provider/LocalDownloadJob.cpp: a download on its way. The file is read in chunks, and each
-- chunk is written to a QLocalSocket, which buffers it and later signals how many bytes it has passed on.
use storage_framework.Base.{
  ℕ, Bool, false, not, ◌&&◌, Option, none, some, List, ◌++◌, if◌then◌else◌, length, take, drop, ◌-◌,
}
use storage_framework.Base.Text.{Text, text}
use storage_framework.Base.Int.{ℤ, pos, negsuc, ◌-ℤ◌, ltb_ℤ, eqb_ℤ}
use storage_framework.Errors.Exceptions.{StorageException, logic, resource}
use storage_framework.Provider.Answer.{Answer, value, exception}
use storage_framework.Provider.Completion.{Completion, report_download_error, report_complete}
use storage_framework.Provider.Completion
use storage_framework.Provider.Upload.{Written}
use storage_framework.Local.Jobs.{LocalDownload}

abbrev pub read_size : ℕ
read_size = 65536

-- What `QFile::read` answers: an error with its text, or a number of bytes, of which the file has as
-- many as it has left and the buffer takes `read_size`.
pub data ReadAnswer : Type 0 where
  read_failed : ℤ → Text → ReadAnswer
  read_some : ℕ → ReadAnswer

unfoldable pub smaller : ℕ → ℕ → ℕ
smaller m n = m - (m - n)

abbrev pub with_base : Completion → LocalDownload → LocalDownload
with_base b d = record d { base = b }

module _ (to_string : ℤ → Text) where
  unfoldable pub cancel_own : LocalDownload → LocalDownload
  cancel_own d = record d { socket_open = false; file_open = false }

  too_early : LocalDownload → StorageException
  too_early d = logic (
      text "finish() method called too early, file \""
      ++ (d.item_id
          ++ (text "\" has size "
              ++ (to_string (pos d.file_size)
                  ++ (text " but only "
                      ++ (to_string (pos d.file_size -ℤ d.bytes_to_write)
                          ++ text " bytes were consumed"))))))

  -- `LocalDownloadJob::finish`.
  unfoldable pub finish_own : LocalDownload → Answer (Unit {0}) × LocalDownload
  unfolding cancel_own too_early
  finish_own d =
      if ltb_ℤ (pos 0) d.bytes_to_write
      then (exception (too_early d), cancel_own d)
      else (value tt, d)

  unfoldable pub finish : LocalDownload → Option (Answer (Unit {0}) × LocalDownload)
  finish d = Completion.finish (λ d. d.base) with_base (λ d. some (finish_own d)) tt d

  unfoldable pub cancel : LocalDownload → Option (Answer (Unit {0}) × LocalDownload)
  cancel d = Completion.cancel (λ d. d.base) with_base (λ d. some (value tt, cancel_own d)) tt d

  -- The `catch` clause.
  unfoldable pub give_up : LocalDownload → StorageException → Option LocalDownload
  unfolding cancel_own report_download_error
  give_up d e = elim (report_download_error d.base e) [
    | none ↦ none
    | some b ↦ some (record (cancel_own d) { base = b })
  ]

  failed_with : LocalDownload → Text → Text → ℤ → StorageException
  failed_with d what class code =
      resource
        (text "download(): \""
          ++ (d.item_id
              ++ (text "\": "
                  ++ (what
                      ++ (text " (" ++ (class ++ (text " = " ++ (to_string code ++ text ")"))))))))
        code

  -- `QLocalSocket::UnknownSocketError` is -1.
  short_write : ℕ → ℤ → Text
  short_write n count =
      text "socket write error, requested "
      ++ (to_string (pos n) ++ (text " B, but wrote only " ++ (to_string count ++ text " B.")))

  unfoldable pub write_chunk : Written → List ℕ → LocalDownload → Option LocalDownload
  unfolding give_up failed_with short_write
  write_chunk w chunk d =
      if eqb_ℤ w.count (negsuc 0)
      then give_up d (
          failed_with d (text "socket error: " ++ w.error_text)
            (text "QLocalSocket::LocalSocketError") w.file_error)
      else if not (eqb_ℤ w.count (pos (length chunk)))
      then give_up d (
          failed_with d (short_write (length chunk) w.count) (text "QLocalSocket::LocalSocketError")
            (negsuc 0))
      else some (record d { sent = d.sent ++ chunk })

  unfoldable pub read_chunk : ReadAnswer → Written → LocalDownload → Option LocalDownload
  unfolding write_chunk give_up failed_with smaller
  read_chunk (read_failed code message) w d =
      give_up d
        (failed_with d (text "read error: " ++ message) (text "QFileDevice::FileError") code)
  read_chunk (read_some n) w d =
      write_chunk w (take (smaller n read_size) d.unread)
        (record d { unread = drop (smaller n read_size) d.unread })

  unfoldable pub complete : Option Completion → LocalDownload → Option LocalDownload
  complete none d = none
  complete (some b) d = some (record d { base = b; file_open = false; socket_open = false })

  unfoldable pub read_and_write_chunk : ReadAnswer → Written → LocalDownload → Option LocalDownload
  unfolding read_chunk complete report_complete
  read_and_write_chunk r w d =
      if eqb_ℤ d.bytes_to_write (pos 0)
      then complete (report_complete d.base) d
      else read_chunk r w d

  -- The signal `bytesWritten`. In a build with assertions a negative rest aborts, which is `none`.
  unfoldable pub on_bytes_written :
      Bool → ℕ → ReadAnswer → Written → LocalDownload → Option LocalDownload
  unfolding read_and_write_chunk
  on_bytes_written asserts bytes r w d =
      let v : LocalDownload = record d { bytes_to_write = d.bytes_to_write -ℤ pos bytes } in
      if asserts && ltb_ℤ v.bytes_to_write (pos 0) then none else read_and_write_chunk r w v
