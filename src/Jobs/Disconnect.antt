-- ===== src/Jobs/Disconnect.antt =====
-- `service_disconnected` of src/provider/internal/PendingJobs.cpp: a client has left the bus.
use storage_framework.Base.{false, ◌≡◌, refl, none, arith}
use storage_framework.Base.Text.{Text, text_eq_refl}
use storage_framework.Base.Key.{text_key, pair_key}
use storage_framework.Base.Dict.{lookup, erase, lookup-erase, erase-IsOrdered}
use storage_framework.Jobs.Pending.{PendingJobs, ServiceWatcher, cancel_calls, service_disconnected}
use storage_framework.Jobs.Ranges.{
  jobs_of, others, from_lower_bound-IsOrdered, others-IsOrdered, count_of-others,
}
use storage_framework.Jobs.Counts.{IsConsistent}

module _ (qt : ServiceWatcher) {D U : Type 0} (download_id : D → Text) (upload_id : U → Text) where
  left : PendingJobs D U qt.State → Text → PendingJobs D U qt.State
  left p client = record {
    downloads = others client p.downloads;
    uploads = others client p.uploads;
    services = erase client p.services;
    watcher = qt.remove_watched client p.watcher;
  }

  left-IsConsistent :
      (p : PendingJobs D U qt.State) (client : Text)
      → IsConsistent qt p
      → IsConsistent qt (left p client)
  unfolding left
  left-IsConsistent p client c = record {
    downloads_ordered = others-IsOrdered client p.downloads c.downloads_ordered;
    uploads_ordered = others-IsOrdered client p.uploads c.uploads_ordered;
    counts = record {
      ordered = erase-IsOrdered client p.services c.counts.ordered;
      counted = λ n. ground (
        arith,
        c.counts.counted n,
        lookup-erase n client p.services c.counts.ordered,
        count_of-others client n p.downloads,
        count_of-others client n p.uploads,
      );
      watched = λ n. ground (
        arith,
        c.counts.watched n,
        lookup-erase n client p.services c.counts.ordered,
        qt.watches-remove client n p.watcher,
      );
    };
  }

  -- From a consistent table, a client's leaving takes off all of its downloads and uploads and no
  -- other job, cancels exactly these, the downloads first, forgets the client's count, stops the
  -- watch of its name, and leaves the table consistent.
  pub service_disconnected-IsConsistent :
      (p : PendingJobs D U qt.State) (client : Text)
      → IsConsistent qt p
      → (q : PendingJobs D U qt.State) × (service_disconnected qt download_id upload_id p client ≡ (
        q,
        cancel_calls qt download_id upload_id
            (jobs_of client p.downloads)
            (jobs_of client p.uploads),
      ))
        × IsConsistent qt q
        × (q.downloads ≡ others client p.downloads)
        × (q.uploads ≡ others client p.uploads)
        × (lookup client q.services ≡ none)
        × (qt.watches q.watcher client ≡ false)
  unfolding service_disconnected left
  service_disconnected-IsConsistent p client c = (
    left p client,
    rw (
      from_lower_bound-IsOrdered client p.downloads c.downloads_ordered,
      from_lower_bound-IsOrdered client p.uploads c.uploads_ordered,
    ),
    left-IsConsistent p client c,
    refl,
    refl,
    ground (arith, lookup-erase client client p.services c.counts.ordered, text_eq_refl client),
    ground (arith, qt.watches-remove client client p.watcher, text_eq_refl client),
  )
