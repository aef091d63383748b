-- ===== src/Examples/ClientV1.antt =====
-- The first client library on a disk, and on a file system of folders.
use storage_framework.Base.{true, false, ◌≡◌, refl, Option, none, some, List, [], ◌∷◌, arith, map}
use storage_framework.Base.Text.{Text, text, text_eq}
use storage_framework.Base.Int.{ℤ, pos}
use storage_framework.Base.Common.{folder, root}
use storage_framework.Client.Validate.{ItemMetadata, DateTime, zoned_date}
use storage_framework.ClientV1.Uploads
use storage_framework.ClientV1.Uploads.{start_uploading, new_worker}
use storage_framework.ClientV1.Uploads.Runs
use storage_framework.ClientV1.Uploads.Settled.{run-start_uploading-settled}
use storage_framework.ClientV1.Uploads.Finishing.{is_settled}
use storage_framework.ClientV1.Downloads
use storage_framework.ClientV1.Downloads.Runs as DownloadRuns
use storage_framework.ClientV1.Downloads.Waiting.{run-start_downloading-waiting}
use storage_framework.ClientV1.World.{
  World, Object, object, throws, deref, throw_if_destroyed, native_identity, mark_deleted, throw_if,
  after, catching,
}
use storage_framework.ClientV1.LocalItems.{Env, copy, delete_item, delete_task, alive}
use storage_framework.ClientV1.LocalItems.Folders.{Paths}
use storage_framework.ClientV1.LocalItems.Requests.{
  serve, reply_with, delete_of, list_of, copy_of, done,
}
use storage_framework.ClientV1.LocalItems.Deleted.{deleted_exception}
use storage_framework.ClientV1.LocalItems.Marks.{serve_all, serve_all-serve}
use storage_framework.ClientV1.LocalItems.Ends.{is_answered, copy-is_answered}
use storage_framework.ClientV1.RemoteItems.{
  RemoteItem, arrives, make_item, listed, listed_page, take_items,
}
use storage_framework.ClientV1.RemoteItems.Validate.{
  validate, validate_metadata, validate_entries, validate_present,
}
use storage_framework.ClientV1.RemoteItems.Replies.{
  HasOutcome, reply_to, reply_to-HasOutcome, create_call, items_of, AllValid, listed-result,
}
use storage_framework.Client.Validate.{any_empty}
use storage_framework.Examples.Folders.{folders, start}
use storage_framework.Examples.Folders.Laws.{folders-IsBounded}
use storage_framework.Examples.Hosts.{Disk, Pipe, disk, disk-CreatesFiles, pipe}

abbrev show : ℤ → Text
show n = []

abbrev empty_disk : Disk
empty_disk = record {
  incoming = 10 ∷ 20 ∷ [];
  delivered = [];
  written = [];
  flushed = [];
  files = [];
}

abbrev new_upload : Uploads.W disk show
new_upload = new_worker empty_disk none 2 (text "/r/a") Uploads.overwrite true

abbrev or_new : Option (Uploads.W disk show) → Uploads.W disk show
or_new none = new_upload
or_new (some w) = w

abbrev begun : Uploads.W disk show
begun = or_new (start_uploading disk show new_upload)

abbrev events : List Runs.Event
events = Runs.bytes_ready ∷ Runs.channel_finished ∷ Runs.cancel ∷ []

abbrev ended : Uploads.W disk show
ended = or_new (Runs.run disk show events (some begun))

run-start_uploading-settled_example :
    (v : Uploads.W disk show) × (Runs.run disk show events (some begun) ≡ some v)
    × (is_settled disk show v ≡ true)
unfolding start_uploading new_worker
run-start_uploading-settled_example =
    run-start_uploading-settled disk show disk-CreatesFiles empty_disk none 2 (text "/r/a")
      Uploads.overwrite begun events refl refl refl

abbrev full_pipe : Pipe
full_pipe = record { unread = 10 ∷ 20 ∷ []; taken = [] }

abbrev or_fresh : Option (Downloads.W pipe show) → Downloads.W pipe show
or_fresh none = Downloads.new_worker pipe show full_pipe (text "/r/a")
or_fresh (some w) = w

abbrev reading : Downloads.W pipe show
reading =
    or_fresh (
      Downloads.start_downloading pipe show
        (Downloads.new_worker pipe show full_pipe (text "/r/a")))

abbrev signals : List DownloadRuns.Event
signals = DownloadRuns.bytes_written 2 ∷ DownloadRuns.disconnected ∷ []

-- A file without a name cannot be opened.
abbrev stuck : Downloads.W pipe show
stuck =
    or_fresh (Downloads.start_downloading pipe show (Downloads.new_worker pipe show full_pipe []))

run-start_downloading-waiting_example : stuck.waiting ≡ true
unfolding Downloads.start_downloading Downloads.new_worker Downloads.handle_error
    Downloads.do_finish Downloads.finish_in DownloadRuns.run DownloadRuns.step text_eq
run-start_downloading-waiting_example =
    run-start_downloading-waiting pipe show full_pipe []
      (DownloadRuns.finish ∷ DownloadRuns.cancel ∷ []) stuck
      (record { worker = stuck; signalled = 0 }) refl refl

abbrev env : Env folders
env = record { to_string = show; what = λ e. []; unfilled = λ s. ([], pos 0); fuel = 4098 }

abbrev paths : Paths
paths = record { is_absolute = λ p. true; components = λ p. [] }

abbrev folder_a : Object
folder_a = record {
  identity = text "/r/a";
  name = text "a";
  type = folder;
  etag = [];
  modified_time = pos 0;
  deleted = false;
  root = text "/r";
  account = 0;
}

abbrev world : World (List Text)
world = record { fs = start; objects = folder_a ∷ []; alive = λ n. true }

abbrev later : World (List Text)
later = (serve folders env paths delete_of 0 world).1

serve_all-serve_example :
    (o : Object) × (object later.objects 0 ≡ some o)
    × (serve_all folders env paths 0 (list_of ∷ copy_of 0 (text "b") ∷ []) later
        ≡ (map (λ r. throws (deleted_exception r o)) (list_of ∷ copy_of 0 (text "b") ∷ []), later))
unfolding serve reply_with delete_item delete_task alive deref throw_if_destroyed native_identity
    mark_deleted throw_if after catching
serve_all-serve_example =
    serve_all-serve folders env paths 0 delete_of (list_of ∷ copy_of 0 (text "b") ∷ []) world
      (done tt) refl refl (tt, ((record folder_a { deleted = true }, refl), tt))

abbrev the_root : Object
the_root = record {
  identity = text "/r";
  name = text "r";
  type = root;
  etag = [];
  modified_time = pos 0;
  deleted = false;
  root = text "/r";
  account = 0;
}

abbrev two_objects : World (List Text)
two_objects = record { fs = start; objects = folder_a ∷ the_root ∷ []; alive = λ n. true }

copy-is_answered_example : is_answered (copy folders env 0 (some 1) (text "c") two_objects).0 ≡ true
copy-is_answered_example =
    copy-is_answered folders env folders-IsBounded (omega arith) 0 1 (text "c") folder_a the_root
      two_objects refl refl

abbrev parse : Text → DateTime
parse s = zoned_date

abbrev child : ItemMetadata
child = record {
  item_id = text "7";
  parent_ids = text "1" ∷ [];
  name = text "b";
  etag = [];
  type = folder;
  metadata = [];
}

abbrev remote : RemoteItem
remote = record { md = child; type = folder; deleted = false; alive = true }

reply_to-HasOutcome_example :
    HasOutcome parse show create_call remote
      (arrives child)
      (reply_to parse show create_call remote (arrives child))
reply_to-HasOutcome_example = reply_to-HasOutcome parse show create_call remote (arrives child)

listed-result_example :
    (remote ∷ [] ≡ items_of parse show (child ∷ []))
    × AllValid parse show (text "Folder::list()") (child ∷ [])
    × (◌≡◌ {A = Option Text} (some (text "t")) (some (text "t")))
unfolding listed listed_page take_items validate validate_metadata validate_entries validate_present
    make_item any_empty
listed-result_example =
    listed-result parse show remote (child ∷ []) (text "t") (remote ∷ []) [] (some (text "t")) refl
