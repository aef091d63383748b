-- ===== src/Jobs/Counts.antt =====
-- `watch_peer` and `unwatch_peer` of src/provider/internal/PendingJobs.cpp, and the invariant of the
-- table that they serve: each client is counted once for each of its jobs, and its name is watched
-- while it has any.
use storage_framework.Base.{
  ℕ, zero, suc, ◌+◌, ◌≡◌, Option, none, some, if◌then◌else◌, is_some, arith, Option-cases, inl, inr,
}
use storage_framework.Base.Text.{Text, text_eq, text_eq→eq, text_eq_refl}
use storage_framework.Base.Int.{ℤ, pos, ◌+ℤ◌, ◌-ℤ◌}
use storage_framework.Base.Key.{text_key, pair_key}
use storage_framework.Base.Dict.{
  lookup, IsOrdered, lookup-assign, lookup-erase, assign-IsOrdered, erase-IsOrdered,
}
use storage_framework.Jobs.Pending.{PendingJobs, ServiceWatcher, watch_peer, unwatch_peer}
use storage_framework.Jobs.Ranges.{count_of}

-- The entry of `services_` for a client with so many jobs.
abbrev pub entry_for : ℕ → Option ℤ
entry_for zero = none
entry_for (suc n) = some (pos (suc n))

-- One job more of `client`.
abbrev pub one_more : Text → (Text → ℕ) → Text → ℕ
one_more client f n = (if text_eq client n then 1 else 0) + f n

module _ (qt : ServiceWatcher) {D U : Type 0} where
  -- `services_` counts `f n` jobs of each client `n`, and the clients with a count are watched.
  pub record Counts (f : Text → ℕ) (p : PendingJobs D U qt.State) : Type 0 where
    pub ordered : IsOrdered p.services
    pub counted : (n : Text) → lookup n p.services ≡ entry_for (f n)
    pub watched : (n : Text) → qt.watches p.watcher n ≡ is_some (lookup n p.services)

  watch_peer-Counts :
      (f : Text → ℕ) (p : PendingJobs D U qt.State) (client : Text)
      → Counts f p
      → Counts (one_more client f) (watch_peer qt p client)
  unfolding watch_peer
  watch_peer-Counts f p client c = elim (Option-cases (lookup client p.services)) [
    | inl absent ↦
        rw (absent, watch_peer)
          (record {
            ordered = assign-IsOrdered client (pos 1) p.services c.ordered;
            counted = λ n. ground (
              arith,
              c.counted n,
              c.counted client,
              lookup-assign n client (pos 1) p.services,
              text_eq→eq client n,
            );
            watched = λ n. ground (
              arith,
              c.watched n,
              lookup-assign n client (pos 1) p.services,
              qt.watches-add client n p.watcher,
            );
          })
    | inr (k, present) ↦
        rw (present, watch_peer)
          (record {
            ordered = assign-IsOrdered client _ p.services c.ordered;
            counted = λ n. ground (
              arith,
              c.counted n,
              c.counted client,
              lookup-assign n client (k +ℤ pos 1) p.services,
              text_eq→eq client n,
            );
            watched = λ n. ground (
              arith,
              c.watched n,
              lookup-assign n client (k +ℤ pos 1) p.services,
              text_eq→eq client n,
            );
          })
  ]

  unwatch_peer-Counts :
      (f : Text → ℕ) (p : PendingJobs D U qt.State) (client : Text)
      → Counts (one_more client f) p
      → Counts f (unwatch_peer qt p client)
  unfolding unwatch_peer
  unwatch_peer-Counts f p client c = elim (Option-cases (lookup client p.services)) [
    | inl absent ↦ absurd (ground (arith, c.counted client, text_eq_refl client))
    | inr (k, present) ↦
        rw (present, unwatch_peer)
          (record {
            ordered = ground (
              arith,
              c.ordered,
              assign-IsOrdered client (k -ℤ pos 1) p.services,
              erase-IsOrdered client p.services,
            );
            counted = λ n. ground (
              arith,
              c.counted n,
              c.counted client,
              text_eq_refl client,
              lookup-assign n client (k -ℤ pos 1) p.services,
              lookup-erase n client p.services c.ordered,
              text_eq→eq client n,
            );
            watched = λ n. ground (
              arith,
              c.watched n,
              c.counted client,
              text_eq_refl client,
              lookup-assign n client (k -ℤ pos 1) p.services,
              lookup-erase n client p.services c.ordered,
              text_eq→eq client n,
              qt.watches-remove client n p.watcher,
            );
          })
  ]

  -- All that holds of the table between two calls.
  pub record IsConsistent (p : PendingJobs D U qt.State) : Type 0 where
    pub downloads_ordered : IsOrdered p.downloads
    pub uploads_ordered : IsOrdered p.uploads
    pub counts : Counts (λ n. count_of n p.downloads + count_of n p.uploads) p

  pub Counts-eq :
      (f g : Text → ℕ) (p : PendingJobs D U qt.State)
      → ((n : Text) → f n ≡ g n)
      → Counts f p
      → Counts g p
  Counts-eq f g p e c = record {
    ordered = c.ordered;
    counted = λ n. rw (← e n) (c.counted n);
    watched = c.watched;
  }

  -- `watch_peer` and `unwatch_peer` leave the jobs alone.
  pub watch_peer-jobs :
      (p : PendingJobs D U qt.State) (client : Text)
      → ((watch_peer qt p client).downloads ≡ p.downloads)
        × ((watch_peer qt p client).uploads ≡ p.uploads)
  unfolding watch_peer
  watch_peer-jobs p client = ground arith

  pub unwatch_peer-jobs :
      (p : PendingJobs D U qt.State) (client : Text)
      → ((unwatch_peer qt p client).downloads ≡ p.downloads)
        × ((unwatch_peer qt p client).uploads ≡ p.uploads)
  unfolding unwatch_peer
  unwatch_peer-jobs p client = ground arith

  pub watched-IsConsistent :
      (p q : PendingJobs D U qt.State) (client : Text)
      → IsConsistent p
      → IsOrdered q.downloads
      → IsOrdered q.uploads
      → (q.services ≡ p.services)
      → (q.watcher ≡ p.watcher)
      → ((n : Text)
          → one_more client (λ n. count_of n p.downloads + count_of n p.uploads) n
            ≡ count_of n q.downloads + count_of n q.uploads)
      → IsConsistent (watch_peer qt q client)
  watched-IsConsistent p q client c od ou es ew e = record {
    downloads_ordered = rw (watch_peer-jobs q client).0 od;
    uploads_ordered = rw (watch_peer-jobs q client).1 ou;
    counts =
        Counts-eq _ _ _ (λ n. ground (arith, e n, watch_peer-jobs q client))
          (watch_peer-Counts (λ n. count_of n p.downloads + count_of n p.uploads) q client
            (record {
              ordered = rw es c.counts.ordered;
              counted = λ n. rw es (c.counts.counted n);
              watched = λ n. rw (es, ew) (c.counts.watched n);
            }));
  }

  pub unwatched-IsConsistent :
      (p q : PendingJobs D U qt.State) (client : Text)
      → IsConsistent p
      → IsOrdered q.downloads
      → IsOrdered q.uploads
      → (q.services ≡ p.services)
      → (q.watcher ≡ p.watcher)
      → ((n : Text)
          → count_of n p.downloads + count_of n p.uploads
            ≡ one_more client (λ n. count_of n q.downloads + count_of n q.uploads) n)
      → IsConsistent (unwatch_peer qt q client)
  unwatched-IsConsistent p q client c od ou es ew e = record {
    downloads_ordered = rw (unwatch_peer-jobs q client).0 od;
    uploads_ordered = rw (unwatch_peer-jobs q client).1 ou;
    counts =
        Counts-eq _ _ _ (λ n. ground (arith, unwatch_peer-jobs q client))
          (unwatch_peer-Counts (λ n. count_of n q.downloads + count_of n q.uploads) q client
            (record {
              ordered = rw es c.counts.ordered;
              counted = λ n. rw (es, ← e n) (c.counts.counted n);
              watched = λ n. rw (es, ew) (c.counts.watched n);
            }));
  }
