-- ===== src/Examples/Downloader.antt =====
-- Downloads over a socket that takes every write.
use storage_framework.Base.{ℕ, true, refl, Option, none, some, List, [], ◌∷◌}
use storage_framework.Base.Text.{text}
use storage_framework.Base.Int.{pos}
use storage_framework.Client.Downloader.{Downloader, start, process_reply, close, finish_reply}
use storage_framework.Client.Downloader.Lifecycle.{
  Session, Event, replies, closes, replies_finish, step, run, begin_download, IsSound,
  run-begin_download-IsSound,
}
use storage_framework.Examples.Models.{list_socket}

abbrev history : List Event
history = replies true (text "7") (pos 3) ∷ closes true ∷ replies_finish true ∷ []

abbrev or_begin : Option (Session (List ℕ) ℕ) → Session (List ℕ) ℕ
or_begin none = begin_download list_socket (text "download") 2
or_begin (some s) = s

abbrev final : Session (List ℕ) ℕ
final = or_begin (run list_socket (some (begin_download list_socket (text "download") 2)) history)

run-begin_download-IsSound_example : IsSound list_socket final
unfolding run step begin_download start process_reply close finish_reply
run-begin_download-IsSound_example =
    run-begin_download-IsSound list_socket (text "download") 2 final history refl

abbrev waiting : Downloader (List ℕ) ℕ
waiting = start list_socket (text "download") 2
