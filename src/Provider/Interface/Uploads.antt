-- ===== src/Provider/Interface/Uploads.antt =====
-- An upload from the call that opens it to the one that ends it: src/provider/internal/ProviderInterface.cpp.
use storage_framework.Base.{
  Bool, true, false, ◌≡◌, refl, ◌∙◌, ap, Option, none, some, inl, inr, ◌++◌, arith,
}
use storage_framework.Base.Text.{Text, text, text_eq}
use storage_framework.Base.Int.{negsuc, ℤ, pos, ltb_ℤ}
use storage_framework.Base.Key.{pair_eq_refl, text_key, pair_key}
use storage_framework.Base.Dict.{lookup}
use storage_framework.Errors.Exceptions.{logic}
use storage_framework.Provider.Answer.{Answer, value, exception}
use storage_framework.Provider.Completion.{Completion, take_write_socket}
use storage_framework.Jobs.Pending.{
  ServiceWatcher, PendingJobs, returned, is_unique_name, add_upload,
}
use storage_framework.Jobs.Counts.{IsConsistent}
use storage_framework.Jobs.Watch.{add_upload-IsConsistent, remove_upload-IsConsistent}
use storage_framework.Provider.Interface.{
  JobClass, upload_id, open_upload, enter_upload, end_job, end_upload,
}

take_lem :
    (asserts : Bool) (b : Completion)
    → ltb_ℤ b.write_socket (pos 0) ≡ false
    → take_write_socket asserts b ≡ some (b.write_socket, record b { write_socket = negsuc 0 })
unfolding take_write_socket
take_lem asserts b h = ground arith

module _ (qt : ServiceWatcher) {D U : Type 0} (asserts : Bool) (downloads : JobClass D)
    (uploads : JobClass U) where
  open_lem :
      (p q : PendingJobs D U qt.State) (client : Text) (fd : ℤ) (b : Completion) (job : U)
      → take_write_socket asserts (uploads.base job) ≡ some (fd, b)
      → add_upload qt asserts
          (upload_id qt asserts downloads uploads)
          p
          client
          (uploads.with_base b job)
        ≡ some q
      → open_upload qt asserts downloads uploads p client (value job)
        ≡ some (
          value (record { id = (uploads.base (uploads.with_base b job)).id; file_descriptor = fd }),
          q,
        )
  unfolding open_upload enter_upload
  open_lem p q client fd b job h k = rw (open_upload, h) (rw (enter_upload, k) refl)

module _ (qt : ServiceWatcher) {D U A : Type 0} where
  -- What is not on the table cannot be ended.
  end_upload_absent :
      (call : U → Option (Answer A × U)) (p : PendingJobs D U qt.State) (client id : Text)
      → IsConsistent qt p
      → lookup (client, id) p.uploads ≡ none
      → end_upload qt call p client id ≡ some (exception (logic (text "No such upload: " ++ id)), p)
  unfolding end_upload end_job
  end_upload_absent call p client id c absent = elim (remove_upload-IsConsistent qt p client id c) [
    | inl gone ↦ rw gone.1 refl
    | inr (j, r, present, _, _, _, _) ↦ absurd (cc)
  ]

  -- An upload that is on the table can be ended once.
  end_upload_once :
      (call : U → Option (Answer A × U)) (q : PendingJobs D U qt.State) (client id : Text) (job : U)
      → IsConsistent qt q
      → lookup (client, id) q.uploads ≡ some job
      → (r : PendingJobs D U qt.State) × (end_upload qt call q client id
          ≡ end_job qt call (r, returned job))
        × (end_upload qt call r client id
            ≡ some (exception (logic (text "No such upload: " ++ id)), r))
  unfolding end_upload
  end_upload_once call q client id job c there =
      elim (remove_upload-IsConsistent qt q client id c) [
        | inl gone ↦ absurd (cc)
        | inr (j, r, present, removed, cr, left, _) ↦ (
          r,
          ap (end_job qt call) (ground (arith, removed, present)),
          end_upload_absent call r client id cr
              (left (client, id) ∙ rw (pair_eq_refl (client, id)) refl),
        )
      ]

  module _ (asserts : Bool) (downloads : JobClass D) (uploads : JobClass U) where
    -- When the provider has made an upload under an id that is new to a client, with its socket for the client
    -- open, the client gets the id and that socket, in every build. The upload, without the socket, is
    -- then on the table: the client's next call under the id ends that very upload and takes it off, and
    -- any further one is refused, as is one of another client that has no upload under the id.
    pub open_upload-end_upload :
        (call : U → Option (Answer A × U)) (p : PendingJobs D U qt.State) (client other : Text)
        (job : U)
        → IsConsistent qt p
        → is_unique_name client ≡ true
        → lookup (client, (uploads.base job).id) p.uploads ≡ none
        → lookup (other, (uploads.base job).id) p.uploads ≡ none
        → text_eq client other ≡ false
        → ltb_ℤ (uploads.base job).write_socket (pos 0) ≡ false
        → (q r : PendingJobs D U qt.State) × (open_upload qt asserts downloads uploads p client
              (value job)
            ≡ some (
              value (record {
                id = (uploads.base job).id;
                file_descriptor = (uploads.base job).write_socket;
              }),
              q,
            ))
          × (end_upload qt call q client (uploads.base job).id
              ≡ end_job qt call (
                r,
                returned
                    (uploads.with_base (record (uploads.base job) { write_socket = negsuc 0 }) job),
              ))
          × (end_upload qt call r client (uploads.base job).id
              ≡ some (exception (logic (text "No such upload: " ++ (uploads.base job).id)), r))
          × (end_upload qt call q other (uploads.base job).id
              ≡ some (exception (logic (text "No such upload: " ++ (uploads.base job).id)), q))
    open_upload-end_upload call p client other job c named new foreign apart is_open =
        let taken : U =
          uploads.with_base (record (uploads.base job) { write_socket = negsuc 0 }) job in
        let same_id : (uploads.base taken).id ≡ (uploads.base job).id =
          ap (λ (b : Completion). b.id) (uploads.base-with_base _ job) in
        let (q, added, cq, there, _) =
          add_upload-IsConsistent qt asserts (upload_id qt asserts downloads uploads) p client taken
            c named (rw same_id new) in
        let (r, ended, again) = end_upload_once call q client (uploads.base job).id taken cq (
          there (client, (uploads.base job).id)
          ∙ rw (same_id, pair_eq_refl (client, (uploads.base job).id)) refl) in
        (
          q,
          r,
          open_lem qt asserts downloads uploads p q client (uploads.base job).write_socket _ job
                (take_lem asserts (uploads.base job) is_open) added
              ∙ ap
                  (λ i. some (
                    value (record { id = i; file_descriptor = (uploads.base job).write_socket }),
                    q,
                  ))
                  same_id,
          ended,
          again,
          end_upload_absent call q other (uploads.base job).id cq
              (there (other, (uploads.base job).id) ∙ rw (apart) foreign),
        )
