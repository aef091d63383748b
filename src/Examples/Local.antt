-- ===== src/Examples/Local.antt =====
-- The local provider at work on a file system of folders with the root "/r", which holds a folder with
-- another one in it; there is a folder outside_root.
use storage_framework.Local.Ends.Requests.{is_answered, serve-is_answered}
use storage_framework.Base.{true, arith, ◌≡◌, refl, [], ◌∷◌}
use storage_framework.Base.Text.{text, starts_with, text_eq}
use storage_framework.Local.FileSystem.{is_below, is_under, has_slash}
use storage_framework.Local.Items.{make_item}
use storage_framework.Local.Steps.{after}
use storage_framework.Local.Guards.{
  get_mtime_nsecs, invoke_async, throw_if_not_valid, sanitize, is_reserved_path, throw_if_exists,
  throw_if_root,
}
use storage_framework.Local.Operations.{serve, move_of, copy_of, move}
use storage_framework.Examples.Folders.Laws.{folders-IsBounded}
use storage_framework.Examples.Folders.{
  folders, start, canonical_of, status_of, mem, child, last_name, parent, remove, rename_to,
  folder_status,
}

-- Each step of the move is taken.
moved :
    (serve folders
      (λ n. [])
      (λ n. [])
      (λ n. [])
      100
      (text "/r")
      (move_of (text "/r/a/b") (text "/r") (text "c"))
      start).1
    ≡ text "/r/c" ∷ text "/r" ∷ text "/r/a" ∷ text "/out" ∷ []
unfolding serve invoke_async after move throw_if_not_valid sanitize is_reserved_path throw_if_exists
    throw_if_root is_under is_below starts_with text_eq has_slash canonical_of status_of mem child
    last_name parent remove rename_to folder_status make_item get_mtime_nsecs
moved = refl

serve-is_answered_example :
    is_answered
      (serve folders
        (λ n. [])
        (λ n. [])
        (λ n. [])
        4098
        (text "/r")
        (copy_of (text "/r/a") (text "/r") (text "c"))
        start).0
    ≡ true
serve-is_answered_example =
    serve-is_answered folders (text "/r") (λ n. []) (λ n. []) (λ n. []) 4098
      (copy_of (text "/r/a") (text "/r") (text "c")) start folders-IsBounded (omega arith)
