-- ===== src/ClientV1/Downloads.antt =====
-- src/qt/client/internal/local_client/DownloaderImpl.cpp: the worker of a download, whose slots run in a
-- thread of its own.
pub mod Runs
pub mod Accounts
pub mod Sound
pub mod Waiting
use storage_framework.Base.{
  ℕ, ◌+◌, Bool, true, false, ◌||◌, Option, none, some, List, [], ◌∷◌, ◌++◌, ◌==◌, if◌then◌else◌,
  length,
}
use storage_framework.Base.Text.{Text, text}
use storage_framework.Base.Int.{ℤ, pos, negsuc, ◌-ℤ◌, ltb_ℤ, eqb_ℤ}
use storage_framework.ClientV1.Exceptions.{StorageException, cancelled, logic, resource}
use storage_framework.ClientV1.Future.{Report, exception, finished}

abbrev pub Errno : Type 0
Errno = ℤ × Text

-- What the worker calls of `QFile` and `QLocalSocket`. `read` and `write` answer none for -1, and
-- `appended` is what `QString + qint64` adds to a text. For the properties there is also what is
-- left of the file and what the socket has taken.
pub record Channel : Type 1 where
  pub State : Type 0
  pub appended : ℤ → Text
  pub open_file : Text → State → Bool × State
  pub size : State → ℕ
  pub read : ℕ → State → Option (List ℕ) × State
  pub write : List ℕ → State → ℤ × State
  pub file_error : State → Errno
  pub socket_error : State → Errno
  pub unread : State → List ℕ
  pub taken : State → List ℕ

pub data State : Type 0 where
  in_progress finalized cancelled_ error : State

-- `waiting` says whether the constructor still waits for the worker, `connected` whether the
-- worker's slots are connected to the socket's signals. `closing` says that `disconnectFromServer`
-- was called and `aborted` that `abort` was.
pub record DownloadWorker (S : Type 0) : Type 0 where
  pub channel : S
  pub state : State
  pub filename : Text
  pub bytes_to_write : ℤ
  pub waiting : Bool
  pub connected : Bool
  pub closing : Bool
  pub aborted : Bool
  pub file_open : Bool
  pub error_msg : Text
  pub error_code : ℤ
  pub reports : List (Report (Unit {0}))
  pub quit : Bool

abbrev pub read_size : ℕ
read_size = 65536

module _ (c : Channel) (to_string : ℤ → Text) where
  open c use {appended, open_file, size, read, write, file_error, socket_error}

  abbrev pub W : Type 0
  W = DownloadWorker c.State

  unfoldable pub new_worker : c.State → Text → W
  new_worker channel filename = record {
    channel = channel;
    state = in_progress;
    filename = filename;
    bytes_to_write = pos 0;
    waiting = true;
    connected = false;
    closing = false;
    aborted = false;
    file_open = false;
    error_msg = [];
    error_code = pos 0;
    reports = [];
    quit = false;
  }

  too_early : W → StorageException
  too_early w =
      let written = pos (size w.channel) -ℤ w.bytes_to_write in
      logic (
        text "Downloader::finish_download(): method called too early, file "
        ++ (w.filename
            ++ (text " has size "
                ++ (to_string (pos (size w.channel))
                    ++ (text ", but only "
                        ++ (to_string written
                            ++ (text " byte"
                                ++ ((if eqb_ℤ written (pos 1) then text " was" else text "s were")
                                    ++ text " consumed."))))))))

  -- The end of `do_finish`.
  abbrev pub conclude : List (Report (Unit {0})) → W → W
  conclude rs w = record w { reports = w.reports ++ (rs ++ finished ∷ []); quit = true }

  unfoldable pub finish_in : State → W → Option W
  unfolding too_early
  finish_in in_progress w =
      if ltb_ℤ (pos 0) w.bytes_to_write
      then some (conclude (exception (too_early w) ∷ []) w)
      else some (conclude [] (record w { state = finalized }))
  finish_in finalized w = none
  finish_in cancelled_ w = some (
      conclude
        (exception (
            cancelled (
              text "Downloader::finish_download(): download of "
              ++ (w.filename ++ text " was cancelled")))
          ∷ [])
        w)
  finish_in error w = some (conclude (exception (resource w.error_msg w.error_code) ∷ []) w)

  -- none is `abort()`.
  unfoldable pub do_finish : W → Option W
  unfolding finish_in
  do_finish w = finish_in w.state w

  unfoldable pub do_cancel : W → Option W
  unfolding do_finish
  do_cancel w = elim w.state [
    | in_progress ↦
        do_finish (record w {
          connected = false;
          aborted = true;
          bytes_to_write = pos 0;
          state = cancelled_;
        })
    | _ ↦ some w
  ]

  abbrev pub is_progressing : State → Bool
  is_progressing in_progress = true
  is_progressing _ = false

  unfoldable pub handle_error : Text → ℤ → W → Option W
  unfolding do_finish
  handle_error msg code w = do_finish (record w {
    aborted = is_progressing w.state || w.aborted;
    state = error;
    error_msg = text "Downloader: " ++ msg;
    error_code = code;
  })

  -- What became of the write of a chunk of `n` bytes.
  unfoldable pub wrote : ℤ → ℕ → W → Option W
  unfolding handle_error
  wrote r n w =
      if eqb_ℤ r (negsuc 0)
      then handle_error (w.filename ++ (text ": socket error: " ++ (socket_error w.channel).1))
          (socket_error w.channel).0 w
      else if eqb_ℤ r (pos n)
      then some w
      else handle_error
          (w.filename
            ++ (text ": write error, requested "
                ++ (appended (pos n)
                    ++ (text " B, but wrote only " ++ (appended r ++ text " B.")))))
          (pos 0) w

  unfoldable pub write_chunk : Option (List ℕ) → W → Option W
  unfolding wrote
  write_chunk none w =
      handle_error (w.filename ++ (text ": read error: " ++ (file_error w.channel).1))
        (file_error w.channel).0 w
  write_chunk (some buf) w =
      let r = write buf w.channel in wrote r.0 (length buf) (record w { channel = r.1 })

  unfoldable pub read_and_write_chunk : W → Option W
  unfolding write_chunk
  read_and_write_chunk w =
      let r = read read_size w.channel in write_chunk r.0 (record w { channel = r.1 })

  -- `assert` aborts where more was written than there was.
  unfoldable pub on_bytes_written : ℕ → W → Option W
  unfolding read_and_write_chunk
  on_bytes_written bytes w =
      let left = w.bytes_to_write -ℤ pos bytes in
      if ltb_ℤ left (pos 0)
      then none
      else if eqb_ℤ left (pos 0)
      then some (record w { bytes_to_write = left; file_open = false; closing = true })
      else read_and_write_chunk (record w { bytes_to_write = left })

  unfoldable pub on_error : W → Option W
  unfolding handle_error
  on_error w =
      handle_error (socket_error w.channel).1 (socket_error w.channel).0
        (record w { connected = false })

  -- `start_downloading`: where the file cannot be opened the constructor is never told.
  unfoldable pub start_downloading : W → Option W
  unfolding handle_error read_and_write_chunk
  start_downloading w =
      let r = open_file w.filename w.channel in
      let w' = record w { channel = r.1; connected = true } in
      if r.0
      then (let opened = record w' {
        file_open = true;
        bytes_to_write = pos (size r.1);
        waiting = false;
      } in
          if size r.1 == 0
          then some (record opened { closing = true })
          else read_and_write_chunk opened)
      else handle_error (text "cannot open " ++ (w.filename ++ (text ": " ++ (file_error r.1).1)))
          (file_error r.1).0 w'
