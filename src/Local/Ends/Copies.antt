-- ===== src/Local/Ends/Copies.antt =====
-- How a copy ends: src/local-provider/LocalProvider.cpp. It goes into folders as deep as they are, which
-- is also into one behind a symbolic link to a folder above it.
use storage_framework.Base.{
  ℕ, zero, suc, ◌+◌, ◌≤◌, ◌<◌, Bool, true, false, ◌≡◌, refl, [], length, arith,
}
use storage_framework.Base.Text.{Text}
use storage_framework.Base.Int.{ℤ}
use storage_framework.Local.Outcome.{returns, check}
use storage_framework.Local.FileSystem.{
  FileSystem, FileType, file_not_found, regular_file, directory_file, other_file, FileStatus,
}
use storage_framework.Local.Lawful.{IsBounded}
use storage_framework.Local.Steps.{M}
use storage_framework.Local.Operations.{
  by_type, copy_recursively, copy_entry, copy_through, copy_folder, copy_item, copy,
}
use storage_framework.Local.Ends.{
  ends, after-ends, check-ends, run_if-ends, for_each-ends, check_ok, valid-ends, sanitize-ends,
  throw_if_exists-ends, item_at-ends,
}

module _ (fs : FileSystem) (to_string : ℤ → Text) (format_utc : ℤ → Text)
    (mime_type : Text → Text) where
  by_type-ends :
      (t : FileType) (f d : M fs.State (Unit {0})) (s : fs.State)
      → ends (f s).0 ≡ true
      → ends (d s).0 ≡ true
      → ends (by_type fs to_string format_utc mime_type t f d s).0 ≡ true
  unfolding by_type
  by_type-ends regular_file f d s h k = h
  by_type-ends directory_file f d s h k = k
  by_type-ends other_file f d s h k = refl
  by_type-ends file_not_found f d s h k = refl

  module _ (bounded : IsBounded fs) where
    -- A path whose status is there is short enough.
    not_too_long :
        (s : fs.State) (p : Text) (st : FileStatus)
        → check (fs.status s p) ≡ returns st
        → length p ≤ fs.path_max
    not_too_long s p st h = ground (arith, check_ok (fs.status s p) st h, bounded.too_long s p)

    -- Each level of folders makes the path longer.
    copy_recursively-ends :
        (fuel : ℕ) (source target : Text) (s : fs.State)
        → 0 < fuel
        → fs.path_max + 2 ≤ fuel + length source
        → ends (copy_recursively fs to_string format_utc mime_type fuel source target s).0 ≡ true
    unfolding copy_recursively
    copy_recursively-ends zero source target s pos enough = absurd (omega arith)
    copy_recursively-ends (suc fuel) source target s pos enough = run_if-ends _ _ s (λ _.
        after-ends _ _ _ (check-ends _) (λ st found. by_type-ends _ _ _ s (check-ends _) (
          after-ends _ _ _ (check-ends _) (λ _ _. after-ends _ _ _ (check-ends _) (λ es listed.
            for_each-ends (λ e. length source < length e) _
              (λ e t longer.
                copy_recursively-ends fuel e _ t (omega (arith, not_too_long s source st found))
                  (omega arith))
              es _ (bounded.entries_longer _ source es (check_ok _ es listed)))))))

    copy_entry-ends :
        (fuel : ℕ) (tmp_path e : Text) (s : fs.State)
        → fs.path_max + 2 ≤ fuel
        → ends (copy_entry fs to_string format_utc mime_type fuel tmp_path e s).0 ≡ true
    unfolding copy_entry
    copy_entry-ends fuel tmp_path e s enough = run_if-ends _ _ s (λ _.
        after-ends _ _ _ (check-ends _) (λ st _.
          run_if-ends _ _ s (λ _. copy_recursively-ends fuel e _ s (omega arith) (omega arith))))

    copy_through-ends :
        (fuel : ℕ) (id tmp_path target : Text) (s : fs.State)
        → fs.path_max + 2 ≤ fuel
        → ends (copy_through fs to_string format_utc mime_type fuel id tmp_path target s).0 ≡ true
    unfolding copy_through
    copy_through-ends fuel id tmp_path target s enough = after-ends _ _ _ (check-ends _) (λ _ _.
        after-ends _ _ _ (check-ends _) (λ es listed.
          after-ends _ _ _
            (for_each-ends (λ e. length id < length e) _
              (λ e t _. copy_entry-ends fuel tmp_path e t enough) es _
              (bounded.entries_longer _ id es (check_ok _ es listed)))
            (λ _ _. check-ends _)))

    copy_folder-ends :
        (fuel : ℕ) (id dir target name : Text) (s : fs.State)
        → fs.path_max + 2 ≤ fuel
        → ends (copy_folder fs to_string format_utc mime_type fuel id dir target name s).0 ≡ true
    unfolding copy_folder
    copy_folder-ends fuel id dir target name s enough =
        after-ends _ _ _ (throw_if_exists-ends fs [] s _ _ _) (λ _ _.
          after-ends _ _ _ (check-ends _) (λ parent _. copy_through-ends fuel id _ target s enough))

    copy_item-ends :
        (b : Bool) (fuel : ℕ) (id dir target name : Text) (s : fs.State)
        → fs.path_max + 2 ≤ fuel
        → ends (copy_item fs to_string format_utc mime_type b fuel id dir target name s).0 ≡ true
    unfolding copy_item
    copy_item-ends true fuel id dir target name s enough =
        copy_folder-ends fuel id dir target name s enough
    copy_item-ends false fuel id dir target name s enough = check-ends _

    pub copy-ends :
        (fuel : ℕ) (root id dir name : Text) (s : fs.State)
        → fs.path_max + 2 ≤ fuel
        → ends (copy fs to_string format_utc mime_type fuel root id dir name s).0 ≡ true
    unfolding copy
    copy-ends fuel root id dir name s enough = after-ends _ _ _ (valid-ends fs root s _ _) (λ _ _.
        after-ends _ _ _ (valid-ends fs root s _ _) (λ _ _.
          after-ends _ _ _ (sanitize-ends fs root _ _) (λ n _.
            after-ends _ _ _ (check-ends _) (λ st _.
              after-ends _ _ _ (copy_item-ends _ fuel id dir _ name s enough)
                (λ _ _. item_at-ends fs root to_string format_utc mime_type _ _ _)))))
