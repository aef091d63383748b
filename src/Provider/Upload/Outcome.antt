-- ===== src/Provider/Upload/Outcome.antt =====
-- What `finish` of a local upload leaves: src/local-provider/LocalUploadJob.cpp under
-- src/provider/internal/UploadJobImpl.cpp.
use mathlib.Core.List.{append-nil}
use storage_framework.Base.{
  ℕ, ◌-◌, ◌≤◌, true, false, ◌≡◌, ◌≢◌, refl, ◌⊎◌, inl, inr, Option, none, some, List, ◌++◌, length,
  is_empty, length-append, arith, if◌then◌else◌,
}
use storage_framework.Errors.Exceptions.{StorageException}
use storage_framework.Base.Text.{Text, text_eq→eq}
use storage_framework.Base.Int.{ℤ, pos, negsuc}
use storage_framework.Provider.Answer.{Answer, value, exception}
use storage_framework.Provider.Upload.{
  LocalUpload, in_progress, finished, cancelled, Written, Disk, on_bytes_ready, own_finish,
  finish_upload,
}

-- An upload of `n` announced bytes under way whose completion is not settled, with its bytes accounted
-- for. The announced size is then not negative.
pub record IsUnderway (n : ℕ) (u : LocalUpload) : Type 0 where
  pub announced : u.size ≡ pos n
  pub in_progress : u.state ≡ in_progress
  pub not_completed : u.base.completed ≡ false
  pub not_locked : u.base.locked ≡ false
  pub within : length u.file ≤ n
  pub accounted : u.bytes_to_write ≡ pos (n - length u.file)

-- Reading `buf` gives an upload under way that has `buf` too, or one that is given up: cancelled, with
-- its completion settled and nothing more written.
abbrev pub ReadsOn : ℕ → LocalUpload → List ℕ → Option LocalUpload → Type 0
ReadsOn n u buf none = ⊥
ReadsOn n u buf (some v) =
    (IsUnderway n v × (v.file ≡ u.file ++ buf))
    ⊎ ((v.state ≡ cancelled) × (v.base.completed ≡ true) × (v.file ≡ u.file))

Answer-cases :
    {A : Type 0} (a : Answer A)
    → ((x : A) × (a ≡ value x)) ⊎ ((e : StorageException) × (a ≡ exception e))
Answer-cases (value x) = inl (x, refl)
Answer-cases (exception e) = inr (e, refl)

module _ (to_string : ℤ → Text) (filename : Text → Text) where
  -- Reading what has arrived keeps an upload under way accounted for, or gives it up with its
  -- completion settled. It never blocks.
  pub on_bytes_ready-ReadsOn :
      (n : ℕ) (u : LocalUpload) (buf : List ℕ) (w : Written)
      → IsUnderway n u
      → ReadsOn n u buf (on_bytes_ready to_string filename u buf w)
  unfolding on_bytes_ready
  on_bytes_ready-ReadsOn n u buf w i = ground (arith, length-append u.file buf, append-nil u.file)

  module _ {Item : Type 0} where
    -- If `finish` of an upload under way, of a size that is not negative, gives an item, exactly the
    -- announced number of bytes was received, flushing the temporary file and putting it in the item's
    -- place have succeeded, the item's file has all of the bytes and in order, the item is what the file
    -- system gives for it, and the lock is free again.
    pub finish_upload-value :
        (any item : Item) (buf : List ℕ) (w : Written) (d : Disk Item) (u v : LocalUpload) (n : ℕ)
        → IsUnderway n u
        → finish_upload to_string filename any buf w d u ≡ some (value item, v)
        → (v.linked ≡ some (u.file ++ buf))
          × (pos (length (u.file ++ buf)) ≡ u.size)
          × (d.flush ≡ none)
          × ((if u.use_linkat then d.link else d.rename) ≡ none)
          × (d.item ≡ value item)
          × (v.state ≡ finished)
          × (v.base.locked ≡ false)
    unfolding finish_upload own_finish
    finish_upload-value any item buf w d u v n i h =
        ground (arith, length-append u.file buf, append-nil u.file)

    -- If `finish` of an upload under way gives an item, then at that moment a new file was allowed to
    -- overwrite or nothing was in its place, and a file that was updated under an ETag had that ETag.
    pub finish_upload_guarded :
        (any item : Item) (buf : List ℕ) (w : Written) (d : Disk Item) (u v : LocalUpload) (n : ℕ)
        → IsUnderway n u
        → finish_upload to_string filename any buf w d u ≡ some (value item, v)
        → (is_empty u.parent_id ≡ false
            → (u.allow_overwrite ≡ true) ⊎ (d.item_exists ≡ value false))
          × (is_empty u.parent_id ≡ true → is_empty u.old_etag ≡ false → d.mtime ≡ value u.old_etag)
    unfolding finish_upload own_finish
    finish_upload_guarded any item buf w d u v n i h = (
      λ p. ground arith,
      λ p q. elim (Answer-cases d.mtime) [
        | inl (now, e) ↦ ground (arith, e, text_eq→eq now u.old_etag)
        | inr (x, e) ↦ ground (arith, e)
      ],
    )

    -- Where the number of bytes still to come is negative, as it is from the start if the announced size
    -- is, `finish` of an upload whose completion is not settled reads nothing of what has arrived: it
    -- returns, and if it gives an item, the item's file has only what was written before.
    pub finish_upload_negative :
        (any : Item) (buf : List ℕ) (w : Written) (d : Disk Item) (u : LocalUpload) (k : ℕ)
        → u.bytes_to_write ≡ negsuc k
        → u.base.completed ≡ false
        → u.base.locked ≡ false
        → (finish_upload to_string filename any buf w d u ≢ none)
          × ((item : Item) (v : LocalUpload)
              → finish_upload to_string filename any buf w d u ≡ some (value item, v)
              → v.linked ≡ some u.file)
    unfolding finish_upload own_finish on_bytes_ready
    finish_upload_negative any buf w d u k b c l = (λ h. ground arith, λ item v h. ground arith)
