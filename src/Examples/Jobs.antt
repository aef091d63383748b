-- ===== src/Examples/Jobs.antt =====
-- A table with one client, `:1.5`, that has one download and one upload.
use storage_framework.Base.{false, ◌≡◌, refl, ◌⊎◌, none, some, [], ◌∷◌, ◌++◌, if◌then◌else◌, arith}
use storage_framework.Base.Text.{Text, text}
use storage_framework.Base.Int.{pos}
use storage_framework.Base.Key.{text_key, pair_key, pair_eq}
use storage_framework.Base.Dict.{lookup}
use storage_framework.Errors.Exceptions.{logic}
use storage_framework.Jobs.Pending.{
  JobId, PendingJobs, returned, thrown, remove_download, service_disconnected, cancel_calls,
}
use storage_framework.Jobs.Ranges.{count_of, jobs_of, others}
use storage_framework.Jobs.Counts.{IsConsistent}
use storage_framework.Jobs.Watch.{remove_download-IsConsistent}
use storage_framework.Jobs.Disconnect.{service_disconnected-IsConsistent}
use storage_framework.Examples.Models.{list_watcher}

-- A job is its id here.
abbrev Table : Type 0
Table = PendingJobs Text Text list_watcher.State

abbrev own_id : Text → Text
own_id t = t

abbrev empty : Table
empty = record { downloads = []; uploads = []; services = []; watcher = [] }

empty-IsConsistent : IsConsistent list_watcher empty
unfolding count_of lookup
empty-IsConsistent = record {
  downloads_ordered = tt;
  uploads_ordered = tt;
  counts = record { ordered = tt; counted = λ n. refl; watched = λ n. refl };
}

abbrev client : Text
client = text ":1.5"

abbrev id : Text
id = text "1"

abbrev one : Table
one = record {
  downloads = ((client, id), id) ∷ [];
  uploads = [];
  services = (client, pos 1) ∷ [];
  watcher = client ∷ [];
}

one-IsConsistent : IsConsistent list_watcher one
unfolding count_of lookup
one-IsConsistent = record {
  downloads_ordered = (tt, tt);
  uploads_ordered = tt;
  counts = record { ordered = (tt, tt); counted = λ n. ground arith; watched = λ n. ground arith };
}

remove_download-IsConsistent_example :
    ((lookup (client, id) one.downloads ≡ none)
      × (remove_download list_watcher one client id
          ≡ (one, thrown (logic (text "No such download: " ++ id)))))
    ⊎ ((job : Text) × (q : Table) × (lookup (client, id) one.downloads ≡ some job)
        × (remove_download list_watcher one client id ≡ (q, returned job))
        × IsConsistent list_watcher q
        × ((k : JobId)
            → lookup k q.downloads
              ≡ (if pair_eq (client, id) k then none else lookup k one.downloads))
        × (q.uploads ≡ one.uploads))
remove_download-IsConsistent_example =
    remove_download-IsConsistent list_watcher one client id one-IsConsistent

service_disconnected-IsConsistent_example :
    (q : Table) × (service_disconnected list_watcher own_id own_id one client ≡ (
      q,
      cancel_calls list_watcher own_id own_id
          (jobs_of client one.downloads)
          (jobs_of client one.uploads),
    ))
    × IsConsistent list_watcher q
    × (q.downloads ≡ others client one.downloads)
    × (q.uploads ≡ others client one.uploads)
    × (lookup client q.services ≡ none)
    × (list_watcher.watches q.watcher client ≡ false)
service_disconnected-IsConsistent_example =
    service_disconnected-IsConsistent list_watcher own_id own_id one client one-IsConsistent
