-- ===== src/ClientV1/Uploads/Worker.antt =====
-- `UploadWorker` of src/qt/client/internal/local_client/UploaderImpl.cpp, its members and its environment.
use storage_framework.Base.{ℕ, Bool, true, false, Option, none, List, [], ◌∷◌, ◌++◌}
use storage_framework.Base.Text.{Text}
use storage_framework.Base.Int.{ℤ, pos}
use storage_framework.Local.FileSystem.{Stat}
use storage_framework.ClientV1.Exceptions.{StorageException}
use storage_framework.ClientV1.Future.{Report, exception, finished}

-- An error number with its text.
abbrev pub Errno : Type 0
Errno = ℤ × Text

-- The calls that the worker makes of its socket, of `QFile`, of boost::filesystem and of POSIX.
-- `appended` is what `QString + qint64` adds to a text, `unfilled` the ETag that is made of a buffer
-- which `stat` has not filled. For the properties there is also what the socket has given, what
-- `QFile::write` has taken (`written`, of which some may still be in its buffer), what of that is in the
-- temporary file (`flushed`), and the content of a named file.
pub record Host : Type 1 where
  pub State : Type 0
  pub filename : Text → Text
  pub parent_path : Text → Text
  pub appended : ℤ → Text
  pub unfilled : State → Text
  pub tmp_name : State → Text
  pub open_tmpfile : Text → State → Bool × State
  pub mkstemp : Text → State → Option Errno × State
  pub read_available : State → List ℕ × State
  pub write : List ℕ → State → ℤ × State
  pub flush : State → Bool × State
  pub file_error : State → Errno
  pub create_new : Text → State → Bool × State
  pub close_new : State → Option Errno × State
  pub canonical : State → Text → Bool
  pub unlink : Text → State → State
  pub linkat : Text → State → Option Errno × State
  pub rename : Text → State → Option Errno × State
  pub stat : State → Text → Stat
  pub delivered : State → List ℕ
  pub written : State → List ℕ
  pub flushed : State → List ℕ
  pub content : State → Text → Option (List ℕ)

pub data State : Type 0 where
  in_progress finalized cancelled_ error : State

pub data ConflictPolicy : Type 0 where
  error_if_conflict overwrite : ConflictPolicy

-- What the worker uses of a `FileImpl`.
pub record FileObject : Type 0 where
  pub etag : Text
  pub deleted : Bool

-- `file` is the file object while there is one, `root` says whether root, account and runtime are
-- still there. `output_open` is `none` as long as there is no output file.
pub record UploadWorker (S : Type 0) : Type 0 where
  pub host : S
  pub state : State
  pub file : Option FileObject
  pub root : Bool
  pub size : ℕ
  pub bytes_read : ℕ
  pub path : Text
  pub policy : ConflictPolicy
  pub output_open : Option Bool
  pub socket_open : Bool
  pub use_linkat : Bool
  pub error_msg : Text
  pub error_code : ℤ
  pub reports : List (Report Text)
  pub initialized : Bool
  pub quit : Bool

module _ {S : Type 0} where
  abbrev pub report : List (Report Text) → UploadWorker S → UploadWorker S
  report rs w = record w { reports = w.reports ++ rs }

  -- `reportException` and `reportFinished`.
  abbrev pub report_exception : StorageException → UploadWorker S → UploadWorker S
  report_exception e w = report (exception e ∷ finished ∷ []) w

  abbrev pub give_up : StorageException → UploadWorker S → UploadWorker S
  give_up e w = report_exception e (record w { state = error })

  unfoldable pub new_worker :
      S → Option FileObject → ℕ → Text → ConflictPolicy → Bool → UploadWorker S
  new_worker host file size path policy root = record {
    host = host;
    state = in_progress;
    file = file;
    root = root;
    size = size;
    bytes_read = 0;
    path = path;
    policy = policy;
    output_open = none;
    socket_open = true;
    use_linkat = true;
    error_msg = [];
    error_code = pos 0;
    reports = [];
    initialized = false;
    quit = false;
  }
