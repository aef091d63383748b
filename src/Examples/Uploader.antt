-- ===== src/Examples/Uploader.antt =====
-- Uploads over a socket that takes every write.
use storage_framework.Base.{ℕ, true, ◌≡◌, refl, Option, none, some, List, [], ◌∷◌, ◌++◌}
use storage_framework.Base.Text.{text}
use storage_framework.Base.Int.{pos}
use storage_framework.Errors.StorageError.{StorageError, with_message, local_comms_error}
use storage_framework.Client.Uploader.{
  failed, finished, cancelled, start, process_reply, process_error, cancel, close, finish_reply,
}
use storage_framework.Client.Uploader.Session.{
  Session, Event, replies, closes, refuses, replies_finish, step, run, begin,
}
use storage_framework.Client.Uploader.Lifecycle.{IsSound, run-begin-IsSound, step-final}
use storage_framework.Client.Uploader.Transfer.{write_all, concat, write_all-sent}
use storage_framework.Examples.Models.{list_socket}

-- Items are numbers here, and all are valid.
abbrev accept : ℕ → Option StorageError
accept md = none

abbrev history : List (Event ℕ)
history = replies true (text "7") (pos 3) ∷ closes true ∷ replies_finish true 42 ∷ []

abbrev final : Option (Session (List ℕ) ℕ)
final = run list_socket accept (some (begin list_socket (text "create") 2)) history

abbrev or_begin : Option (Session (List ℕ) ℕ) → Session (List ℕ) ℕ
or_begin none = begin list_socket (text "create") 2
or_begin (some s) = s

run-begin-IsSound_example : IsSound list_socket accept (or_begin final)
unfolding run step begin start process_reply close finish_reply
run-begin-IsSound_example =
    run-begin-IsSound list_socket accept (text "create") 2 (or_begin final) history refl

abbrev begun : Session (List ℕ) ℕ
begun = begin list_socket (text "create") 2

abbrev stopped : Session (List ℕ) ℕ
stopped = record begun { uploader = cancel list_socket begun.uploader true }

-- The opening call of the uploader that was cancelled fails.
abbrev no_such_account : StorageError
no_such_account = with_message local_comms_error (text "no such account")

abbrev refused : Session (List ℕ) ℕ
refused = or_begin (step list_socket accept stopped (refuses no_such_account))

step-final_example :
    ((stopped.uploader.status ≡ failed) → refused.uploader.status ≡ failed)
    × ((stopped.uploader.status ≡ finished)
        → IsSound list_socket accept stopped
        → refused.uploader.status ≡ finished)
    × ((stopped.uploader.status ≡ cancelled) → refused.uploader.status ≡ failed)
unfolding step begin start cancel process_error
step-final_example = step-final list_socket accept stopped refused (refuses no_such_account) refl

write_all-sent_example :
    let opened =
      process_reply list_socket
        (write_all list_socket
          (start list_socket {Md = ℕ} (text "create") 3)
          ((1 ∷ []) ∷ (2 ∷ []) ∷ []))
        true
        (text "7")
        (pos 3) in
    list_socket.sent (write_all list_socket opened ((3 ∷ []) ∷ [])).socket
    ≡ concat ((1 ∷ []) ∷ (2 ∷ []) ∷ []) ++ concat ((3 ∷ []) ∷ [])
write_all-sent_example =
    write_all-sent list_socket ℕ (text "create") 3 ((1 ∷ []) ∷ (2 ∷ []) ∷ []) ((3 ∷ []) ∷ [])
      (text "7") (pos 3) refl (refl, tt) (refl, tt)
