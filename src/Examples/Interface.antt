-- ===== src/Examples/Interface.antt =====
-- An upload of the client `:1.5`, opened and finished while `:1.6` tries to end it.
use storage_framework.Base.{true, false, ◌≡◌, refl, Option, none, some, [], ◌++◌}
use storage_framework.Base.Text.{Text, text, text_eq}
use storage_framework.Base.Int.{pos, negsuc}
use storage_framework.Base.Dict.{lookup}
use storage_framework.Errors.Exceptions.{logic}
use storage_framework.Provider.Answer.{Answer, value, exception}
use storage_framework.Provider.Completion.{Completion}
use storage_framework.Provider.Interface.{JobClass, open_upload, end_job, end_upload}
use storage_framework.Provider.Interface.Uploads.{open_upload-end_upload}
use storage_framework.Jobs.Pending.{PendingJobs, returned, is_unique_name}
use storage_framework.Jobs.Ranges.{count_of}
use storage_framework.Jobs.Counts.{IsConsistent}
use storage_framework.Examples.Models.{list_watcher}

abbrev plain : JobClass Completion
plain = record { base = λ b. b; with_base = λ b j. b; base-with_base = λ b j. refl }

abbrev Table : Type 0
Table = PendingJobs Completion Completion list_watcher.State

abbrev nothing : Table
nothing = record { downloads = []; uploads = []; services = []; watcher = [] }

nothing-IsConsistent : IsConsistent list_watcher nothing
unfolding count_of lookup
nothing-IsConsistent = record {
  downloads_ordered = tt;
  uploads_ordered = tt;
  counts = record { ordered = tt; counted = λ n. refl; watched = λ n. refl };
}

abbrev job : Completion
job = record {
  id = text "1";
  read_socket = pos 5;
  write_socket = pos 6;
  closed = [];
  completed = false;
  failure = none;
  locked = false;
}

abbrev call : Completion → Option (Answer Text × Completion)
call j = some (value (text "done"), j)

open_upload-end_upload_example :
    (q r : Table) × (open_upload list_watcher true plain plain nothing (text ":1.5") (value job)
      ≡ some (value (record { id = text "1"; file_descriptor = pos 6 }), q))
    × (end_upload list_watcher call q (text ":1.5") (text "1")
        ≡ end_job list_watcher call (r, returned (record job { write_socket = negsuc 0 })))
    × (end_upload list_watcher call r (text ":1.5") (text "1")
        ≡ some (exception (logic (text "No such upload: " ++ text "1")), r))
    × (end_upload list_watcher call q (text ":1.6") (text "1")
        ≡ some (exception (logic (text "No such upload: " ++ text "1")), q))
unfolding is_unique_name lookup text_eq
open_upload-end_upload_example =
    open_upload-end_upload list_watcher true plain plain call nothing (text ":1.5") (text ":1.6")
      job nothing-IsConsistent refl refl refl refl refl
