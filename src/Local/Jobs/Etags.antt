-- ===== src/Local/Jobs/Etags.antt =====
-- ETags over the operations of the local provider: src/local-provider/LocalProvider.cpp, LocalUploadJob.cpp,
-- LocalDownloadJob.cpp.
use storage_framework.Local.Outcome.{check, Result, ok, fails}
use storage_framework.Local.Guards.{canonical_id, valid_id}
use storage_framework.Base.{
  ◌++◌, ap, sym, ◌∙◌, Bool, true, false, ◌≡◌, refl, [], is_empty, arith, if◌then◌else◌,
}
use storage_framework.Base.Text.{Text, text, text_eq, text_eq_refl}
use storage_framework.Base.Int.{ℤ}
use storage_framework.Errors.Exceptions.{conflict}
use storage_framework.Provider.Completion.{Completion}
use storage_framework.Local.Outcome.{returns, throws}
use storage_framework.Base.Common.{file}
use storage_framework.Local.Items.{Item, make_item, describe}
use storage_framework.Local.Guards.{get_mtime_nsecs, stat_result, throw_if_not_valid}
use storage_framework.Local.Operations.{metadata}
use storage_framework.Local.FileSystem.{
  FileStatus, FileType, regular_file, directory_file, other_file, file_not_found, Stat, no_stat,
  mtime_of, is_regular_file, FileSystem,
}
use storage_framework.Local.Jobs.{
  open_download, open_update, Source, Channels, download, update, file_only, throw_if_changed,
}
use storage_framework.Local.Jobs.Opening.{ends-returns, bind-returns, after-returns}

module _ (fs : FileSystem) (to_string : ℤ → Text) (root : Text) where
  -- The time of modification does not depend on the method that asks.
  mtime_same :
      (s : fs.State) (m n p : Text) (t : ℤ)
      → get_mtime_nsecs fs s m p ≡ returns t
      → get_mtime_nsecs fs s n p ≡ returns t
  unfolding get_mtime_nsecs stat_result
  mtime_same s m n p t h = by_stat (fs.stat s p) h
    where
      by_stat : (r : Stat) → stat_result fs m p r ≡ returns t → stat_result fs n p r ≡ returns t
      by_stat (no_stat e x) k = absurd (ground arith)
      by_stat (mtime_of a b) k = k

  module _ (format_utc : ℤ → Text) (mime_type : Text → Text) where
    describe-etag :
        (s : fs.State) (method p : Text) (t : ℤ) (kind : FileType) (item : Item)
        → describe fs to_string format_utc mime_type root s method p t kind ≡ returns item
        → item.type ≡ file
        → (item.etag ≡ to_string t) × (kind ≡ regular_file)
    unfolding describe
    describe-etag s method p t regular_file item h k =
        let (size, _, made) = ends-returns (check (fs.file_size s p)) _ item h in
        (ap (λ (i : Item). i.etag) (sym made), refl)
    describe-etag s method p t directory_file item h k = absurd (ground arith)
    describe-etag s method p t other_file item h k = absurd (cc)
    describe-etag s method p t file_not_found item h k = absurd (cc)

    -- A file's item has its time of modification as its ETag.
    make_item-etag :
        (s : fs.State) (method p : Text) (st : FileStatus) (item : Item)
        → make_item fs to_string format_utc mime_type root s method p st ≡ returns item
        → item.type ≡ file
        → (t : ℤ) × (get_mtime_nsecs fs s method p ≡ returns t)
          × (item.etag ≡ to_string t)
          × (st.type ≡ regular_file)
    unfolding make_item
    make_item-etag s method p st item h k =
        let (t, found, h1) = bind-returns (get_mtime_nsecs fs s method p) _ item h in
        let (base, described, h2) =
          bind-returns (describe fs to_string format_utc mime_type root s method p t st.type) _ item
            h1 in
        let (info, _, made) = ends-returns (check (fs.space s p)) _ item h2 in
        let facts =
          describe-etag s method p t st.type base described (ap (λ (i : Item). i.type) made ∙ k) in
        (t, found, ap (λ (i : Item). i.etag) (sym made) ∙ facts.0, facts.1)

    -- What has given an item for a file is still found so by the checks of any job.
    Found : Text → fs.State → Item → Type 0
    Found id s item =
        (t : ℤ) × (get_mtime_nsecs fs s (text "metadata()") id ≡ returns t)
        × (item.etag ≡ to_string t)
        × ((m : Text) → throw_if_not_valid fs root s m id ≡ returns tt)
        × ((m : Text) → file_only fs to_string root m id s ≡ returns tt)

    valid_same :
        (m n id : Text) (r : Result Text)
        → canonical_id fs root m id r ≡ returns tt
        → canonical_id fs root n id r ≡ returns tt
    unfolding canonical_id valid_id
    valid_same m n id (ok p) h = ground arith
    valid_same m n id (fails e) h = absurd (cc)

    regular_lem : (st : FileStatus) → st.type ≡ regular_file → is_regular_file st ≡ true
    regular_lem st h = rw h refl

    file_only_lem :
        (m id : Text) (s : fs.State) (st : FileStatus)
        → fs.status s id ≡ ok st
        → is_regular_file st ≡ true
        → file_only fs to_string root m id s ≡ returns tt
    unfolding file_only
    file_only_lem m id s st h k = rw (file_only, h) (rw k refl)

    check_ok : {A : Type 0} (r : Result A) (a : A) → check r ≡ returns a → r ≡ ok a
    check_ok (ok x) a h = ground arith
    check_ok (fails e) a h = absurd (cc)

    metadata-Found :
        (id : Text) (s : fs.State) (item : Item)
        → (metadata fs to_string format_utc mime_type root id s).0 ≡ returns item
        → item.type ≡ file
        → Found id s item
    unfolding metadata throw_if_not_valid Found
    metadata-Found id s item h k =
        let (_, valid, h1) =
          after-returns (canonical_id fs root (text "metadata()") id (fs.canonical s id)) s _ item
            h in
        let (st, found, made) = after-returns (check (fs.status s id)) s _ item h1 in
        let (t, time, etag, regular) = make_item-etag s (text "metadata()") id st item made k in
        (
          t,
          time,
          etag,
          λ m. valid_same (text "metadata()") m id (fs.canonical s id) valid,
          λ m.
              file_only_lem m id s st (check_ok (fs.status s id) st found) (regular_lem st regular),
        )

    same_etag :
        (id : Text) (s : fs.State) (item : Item) (m : Text)
        → Found id s item
        → throw_if_changed fs to_string root m id item.etag s
          ≡ throw_if_changed fs to_string root m id [] s
    unfolding Found throw_if_changed
    same_etag id s item m (t, time, etag, _, _) = rw etag (
        rw (mtime_same s (text "metadata()") m id t time)
          (rw (text_eq_refl (to_string t)) (by_empty (is_empty (to_string t)))))
      where
        by_empty : (b : Bool) → (if b then returns tt else returns tt) ≡ returns tt
        by_empty true = refl
        by_empty false = refl

    other_etag :
        (id : Text) (s : fs.State) (item : Item) (m e : Text)
        → Found id s item
        → is_empty e ≡ false
        → text_eq item.etag e ≡ false
        → throw_if_changed fs to_string root m id e s
          ≡ throws (conflict (m ++ text ": ETag mismatch"))
    unfolding Found throw_if_changed
    other_etag id s item m e (t, time, etag, _, _) some_etag other = rw some_etag (
        rw (mtime_same s (text "metadata()") m id t time)
          (rw (ap (λ x. text_eq x e) (sym etag) ∙ other) refl))

    Found-valid :
        (id : Text) (s : fs.State) (item : Item)
        → Found id s item
        → (m : Text) → throw_if_not_valid fs root s m id ≡ returns tt
    unfolding Found
    Found-valid id s item (t, time, etag, valid, is_there) = valid

    Found-file :
        (id : Text) (s : fs.State) (item : Item)
        → Found id s item
        → (m : Text) → file_only fs to_string root m id s ≡ returns tt
    unfolding Found
    Found-file id s item (t, time, etag, valid, is_there) = is_there

    -- If `metadata` gives an item for a file, then on the same file system a download or an update under
    -- the item's ETag passes the checks exactly as one without an ETag does; under any other ETag that is
    -- not empty, each is refused with a conflict.
    pub metadata-etag :
        (id : Text) (s : fs.State) (item : Item) (source : Source) (c : Channels)
        (base : Completion) (size : ℤ)
        → (metadata fs to_string format_utc mime_type root id s).0 ≡ returns item
        → item.type ≡ file
        → (open_download fs to_string root source id item.etag s
            ≡ open_download fs to_string root source id [] s)
          × (open_update fs to_string root c id item.etag s
              ≡ open_update fs to_string root c id [] s)
          × ((e : Text)
              → is_empty e ≡ false
              → text_eq item.etag e ≡ false
              → (download fs to_string root source base id e s
                  ≡ throws (conflict (text "download(): ETag mismatch")))
                × (update fs to_string root c base id size e s
                    ≡ throws (conflict (text "update(): ETag mismatch"))))
    unfolding open_download open_update download update
    metadata-etag id s item source c base size h k =
        let f = metadata-Found id s item h k in
        (
          rw (same_etag id s item (text "download()") f) refl,
          rw (same_etag id s item (text "update()") f) refl,
          λ e some_etag other. (
            rw (Found-valid id s item f (text "download()")) (
                rw (Found-file id s item f (text "download()"))
                  (rw (other_etag id s item (text "download()") e f some_etag other) refl)),
            rw (Found-valid id s item f (text "update()")) (
                rw (Found-file id s item f (text "update()"))
                  (rw (other_etag id s item (text "update()") e f some_etag other) refl)),
          ),
        )
