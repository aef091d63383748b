-- ===== src/Jobs/Watch.antt =====
-- The calls of src/provider/internal/PendingJobs.cpp that enter and remove a job.
use storage_framework.Base.{
  Bool, true, ◌≡◌, refl, none, some, if◌then◌else◌, arith, Option-cases, inl, inr, ◌⊎◌, ◌++◌,
}
use storage_framework.Base.Text.{Text, text}
use storage_framework.Base.Key.{text_key, pair_key, pair_eq}
use storage_framework.Base.Dict.{
  lookup, emplace, erase, lookup-erase, emplace-IsOrdered, erase-IsOrdered, lookup-emplace,
}
use storage_framework.Errors.Exceptions.{logic}
use storage_framework.Jobs.Pending.{
  JobId, PendingJobs, ServiceWatcher, returned, thrown, watch_peer, unwatch_peer, add_download,
  add_upload, remove_download, remove_upload, is_unique_name,
}
use storage_framework.Jobs.Ranges.{count_of-emplace, count_of-erase}
use storage_framework.Jobs.Counts.{
  IsConsistent, watched-IsConsistent, unwatched-IsConsistent, watch_peer-jobs, unwatch_peer-jobs,
}

module _ (qt : ServiceWatcher) {D U : Type 0} where
  -- Under a unique bus name and an id that is new to the client, `add_download` returns in every build, the
  -- table stays consistent (the client counted once more, and watched), and the map of downloads differs
  -- in the new entry alone, while that of uploads is as it was.
  pub add_download-IsConsistent :
      (asserts : Bool) (download_id : D → Text) (p : PendingJobs D U qt.State) (client : Text)
      (job : D)
      → IsConsistent qt p
      → is_unique_name client ≡ true
      → lookup (client, download_id job) p.downloads ≡ none
      → (q : PendingJobs D U qt.State) × (add_download qt asserts download_id p client job ≡ some q)
        × IsConsistent qt q
        × ((k : JobId)
            → lookup k q.downloads
              ≡ (if pair_eq (client, download_id job) k then some job else lookup k p.downloads))
        × (q.uploads ≡ p.uploads)
  unfolding add_download
  add_download-IsConsistent asserts download_id p client job c named new =
      let q : PendingJobs D U qt.State = record p {
        downloads = emplace (client, download_id job) job p.downloads;
      } in
      (
        watch_peer qt q client,
        ground arith,
        watched-IsConsistent qt p q client c (emplace-IsOrdered _ _ p.downloads c.downloads_ordered)
            c.uploads_ordered refl refl
            (λ n. omega (arith, count_of-emplace n (client, download_id job) job p.downloads new)),
        (λ k. rw (
          (watch_peer-jobs qt q client).0,
          lookup-emplace k (client, download_id job) job p.downloads new,
        )),
        (watch_peer-jobs qt q client).1,
      )

  -- Under a unique bus name and an id that is new to the client, `add_upload` returns in every build, the
  -- table stays consistent (the client counted once more, and watched), and the map of uploads differs
  -- in the new entry alone, while that of downloads is as it was.
  pub add_upload-IsConsistent :
      (asserts : Bool) (upload_id : U → Text) (p : PendingJobs D U qt.State) (client : Text)
      (job : U)
      → IsConsistent qt p
      → is_unique_name client ≡ true
      → lookup (client, upload_id job) p.uploads ≡ none
      → (q : PendingJobs D U qt.State) × (add_upload qt asserts upload_id p client job ≡ some q)
        × IsConsistent qt q
        × ((k : JobId)
            → lookup k q.uploads
              ≡ (if pair_eq (client, upload_id job) k then some job else lookup k p.uploads))
        × (q.downloads ≡ p.downloads)
  unfolding add_upload
  add_upload-IsConsistent asserts upload_id p client job c named new =
      let q : PendingJobs D U qt.State = record p {
        uploads = emplace (client, upload_id job) job p.uploads;
      } in
      (
        watch_peer qt q client,
        ground arith,
        watched-IsConsistent qt p q client c c.downloads_ordered
            (emplace-IsOrdered _ _ p.uploads c.uploads_ordered) refl refl
            (λ n. omega (arith, count_of-emplace n (client, upload_id job) job p.uploads new)),
        (λ k. rw (
          (watch_peer-jobs qt q client).1,
          lookup-emplace k (client, upload_id job) job p.uploads new,
        )),
        (watch_peer-jobs qt q client).0,
      )

  -- `remove_download` throws for an id that the client has no download of, and changes nothing then. Else it
  -- returns the download, the table stays consistent (the client counted once less, and no longer
  -- watched after its last job), and the map of downloads has lost that entry alone.
  pub remove_download-IsConsistent :
      (p : PendingJobs D U qt.State) (client id : Text)
      → IsConsistent qt p
      → ((lookup (client, id) p.downloads ≡ none)
          × (remove_download qt p client id
              ≡ (p, thrown (logic (text "No such download: " ++ id)))))
        ⊎ ((job : D) × (q : PendingJobs D U qt.State) × (lookup (client, id) p.downloads ≡ some job)
            × (remove_download qt p client id ≡ (q, returned job))
            × IsConsistent qt q
            × ((k : JobId)
                → lookup k q.downloads
                  ≡ (if pair_eq (client, id) k then none else lookup k p.downloads))
            × (q.uploads ≡ p.uploads))
  unfolding remove_download
  remove_download-IsConsistent p client id c =
      elim (Option-cases (lookup (client, id) p.downloads)) [
        | inl absent ↦ inl (absent, rw (absent, remove_download))
        | inr (job, present) ↦
            let q : PendingJobs D U qt.State = record p {
              downloads = erase (client, id) p.downloads;
            } in
            inr (
              job,
              unwatch_peer qt q client,
              present,
              rw (present, remove_download),
              unwatched-IsConsistent qt p q client c
                  (erase-IsOrdered _ p.downloads c.downloads_ordered) c.uploads_ordered refl refl
                  (λ n. omega (arith, count_of-erase n (client, id) p.downloads present)),
              (λ k.
                  rw ((unwatch_peer-jobs qt q client).0)
                    (lookup-erase k (client, id) p.downloads c.downloads_ordered)),
              (unwatch_peer-jobs qt q client).1,
            )
      ]

  -- `remove_upload` throws for an id that the client has no upload of, and changes nothing then. Else it
  -- returns the upload, the table stays consistent (the client counted once less, and no longer
  -- watched after its last job), and the map of uploads has lost that entry alone.
  pub remove_upload-IsConsistent :
      (p : PendingJobs D U qt.State) (client id : Text)
      → IsConsistent qt p
      → ((lookup (client, id) p.uploads ≡ none)
          × (remove_upload qt p client id ≡ (p, thrown (logic (text "No such upload: " ++ id)))))
        ⊎ ((job : U) × (q : PendingJobs D U qt.State) × (lookup (client, id) p.uploads ≡ some job)
            × (remove_upload qt p client id ≡ (q, returned job))
            × IsConsistent qt q
            × ((k : JobId)
                → lookup k q.uploads
                  ≡ (if pair_eq (client, id) k then none else lookup k p.uploads))
            × (q.downloads ≡ p.downloads))
  unfolding remove_upload
  remove_upload-IsConsistent p client id c = elim (Option-cases (lookup (client, id) p.uploads)) [
    | inl absent ↦ inl (absent, rw (absent, remove_upload))
    | inr (job, present) ↦
        let q : PendingJobs D U qt.State = record p { uploads = erase (client, id) p.uploads } in
        inr (
          job,
          unwatch_peer qt q client,
          present,
          rw (present, remove_upload),
          unwatched-IsConsistent qt p q client c c.downloads_ordered
              (erase-IsOrdered _ p.uploads c.uploads_ordered) refl refl
              (λ n. omega (arith, count_of-erase n (client, id) p.uploads present)),
          (λ k.
              rw ((unwatch_peer-jobs qt q client).1)
                (lookup-erase k (client, id) p.uploads c.uploads_ordered)),
          (unwatch_peer-jobs qt q client).0,
        )
  ]
