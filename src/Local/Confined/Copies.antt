-- ===== src/Local/Confined/Copies.antt =====
-- Copying items: src/local-provider/LocalProvider.cpp.
use storage_framework.Base.{
  ℕ, zero, suc, Bool, true, false, ◌≡◌, sym, subst, ◌++◌, List, [], is_empty, Bool-cases, inl, inr,
  arith,
}
use storage_framework.Base.Text.{Text, text, text_eq}
use storage_framework.Base.Int.{ℤ}
use storage_framework.Local.Outcome.{Outcome, returns, check, ok, fails, Result}
use storage_framework.Local.FileSystem.{
  FileSystem, FileType, file_not_found, regular_file, directory_file, other_file, IsReal, is_absent,
  IsFree, StaysReal, is_under, is_below, is_plain, slash,
}
use storage_framework.Local.Guards.{tmpfile_prefix}
use storage_framework.Local.Confined.Folders.{item_at-Confined}
use storage_framework.Local.FileSystem.{is_directory}
use storage_framework.Local.Lawful.{All, ChangesOnly, IsLawful}
use storage_framework.Local.Below.{is_under_below, under_ne_slash}
use storage_framework.Local.Steps.{M, after, for_each}
use storage_framework.Local.Rules.{after_rule, look_rule, run_if_rule, for_each_rule}
use storage_framework.Local.Operations.{
  by_type, copy_recursively, copy_entry, copy_through, copy_item, copy, copy_folder,
}
use storage_framework.Local.Confined
use storage_framework.Local.Confined.{
  not_under, throw_if_not_valid-IsValidId, sanitize-name, name_not_empty, Confined, Confined-refl,
  Confined-trans, IsValidId, throw_if_exists-IsAbsent, changes-Confined, place_below,
}

module _ (fs : FileSystem) (root : Text) where
  -- Only what is below the root has changed, and each real path stays real.
  abbrev pub Safe : fs.State → fs.State → Type 0
  Safe s t = Confined fs root s t × StaysReal fs s t

  Safe-refl : (s : fs.State) → Safe s s
  Safe-refl s = (Confined-refl fs root s, λ p r. r)

  Safe-trans : (s t u : fs.State) → Safe s t → Safe t u → Safe s u
  Safe-trans s t u a b = (Confined-trans fs root s t u a.0 b.0, λ p r. b.1 p (a.1 p r))

  look :
      {A B : Type 0} (s : fs.State) (o : Outcome A) (f : A → M fs.State B)
      → ((a : A) → o ≡ returns a → Safe s (f a s).1)
      → Safe s (after o s f).1
  look = look_rule Safe Safe-refl Safe-trans

  next :
      {A B : Type 0} (s t : fs.State) (o : Outcome A) (f : A → M fs.State B)
      → Safe s t
      → ((a : A) → o ≡ returns a → Safe t (f a t).1)
      → Safe s (after o t f).1
  next = after_rule Safe Safe-refl Safe-trans

  module _ (law : IsLawful fs) (not_empty : is_empty root ≡ false)
      (not_slash : text_eq root slash ≡ false) where
    plain_not_empty : (n : Text) → is_plain n ≡ true → is_empty n ≡ false
    plain_not_empty n h = ground arith

    -- A copy to a plain name in a valid folder: it changes nothing if something is there.
    one_copy :
        (s t : fs.State) (dir n : Text)
        → IsValidId fs root s dir
        → is_plain n ≡ true
        → (is_absent (fs.status s (fs.append dir n)) ≡ false → t ≡ s)
        → ChangesOnly fs s (fs.place s (fs.append dir n)) t
        → StaysReal fs s t
        → Safe s t
    one_copy s t dir n v p there c k =
        elim (Bool-cases (is_absent (fs.status s (fs.append dir n)))) [
          | inr taken ↦ subst (Safe s) (sym (there taken)) (Safe-refl s)
          | inl free ↦ (
            changes-Confined fs root law not_empty not_slash s t _
                (place_below fs root law not_empty not_slash s dir n v (law.parent_path-plain n p)
                  (plain_not_empty n p) free)
                c,
            k,
          )
        ]

    StaysReal-IsValidId :
        (s t : fs.State) (id : Text)
        → StaysReal fs s t
        → IsValidId fs root s id
        → IsValidId fs root t id
    unfolding IsValidId
    StaysReal-IsValidId s t id k v = (k id v.0, v.1)

    -- A folder that was made in a valid one is valid.
    new_folder :
        (s t : fs.State) (dir n : Text)
        → IsValidId fs root s dir
        → is_plain n ≡ true
        → IsReal fs t (fs.append dir n)
        → IsValidId fs root t (fs.append dir n)
    unfolding IsValidId is_under
    new_folder s t dir n v p r = (
      r,
      ground (
        arith,
        is_under_below root dir (fs.append dir n) v.1
            (law.append-plain s dir n v.0 (under_ne_slash root dir not_empty not_slash v.1) p),
      ),
    )

    check_ok : {A : Type 0} (r : Result A) (a : A) → check r ≡ returns a → r ≡ ok a
    check_ok (ok x) a h = ground arith
    check_ok (fails e) a h = absurd (cc)

    module _ (to_string : ℤ → Text) (format_utc : ℤ → Text) (mime_type : Text → Text) where
      by_type-Safe :
          (s : fs.State) (t : FileType) (f d : M fs.State (Unit {0}))
          → Safe s (f s).1
          → Safe s (d s).1
          → Safe s (by_type fs to_string format_utc mime_type t f d s).1
      unfolding by_type
      by_type-Safe s regular_file f d h k = h
      by_type-Safe s directory_file f d h k = k
      by_type-Safe s other_file f d h k = Safe-refl s
      by_type-Safe s file_not_found f d h k = Safe-refl s

      copy_recursively-Safe :
          (fuel : ℕ) (source dir n : Text) (s : fs.State)
          → IsValidId fs root s dir
          → is_plain n ≡ true
          → Safe s
              (copy_recursively fs to_string format_utc mime_type fuel source (fs.append dir n) s).1
      unfolding copy_recursively IsValidId
      copy_recursively-Safe zero source dir n s v p = Safe-refl s
      copy_recursively-Safe (suc fuel) source dir n s v p =
          run_if_rule Safe Safe-refl Safe-trans s _ _ (λ _. look s _ _ (λ st _.
            by_type-Safe s _ _ _
              (one_copy s _ dir n v p (law.copy_file_existing s source _)
                (law.copy_file_lem s source _) (law.copy_file-keeps s source _))
              (next s _ _ _
                (one_copy s _ dir n v p (law.copy_directory_existing s source _)
                  (law.copy_directory_lem s source _) (law.copy_directory-keeps s source _))
                (λ _ made. look _ _ _ (λ es e.
                  for_each_rule Safe Safe-refl Safe-trans
                    (λ u. IsValidId fs root u (fs.append dir n))
                    (λ e. is_plain (fs.filename e) ≡ true) _
                    (λ t u r w. StaysReal-IsValidId t u _ r.1 w)
                    (λ e t w q.
                      copy_recursively-Safe fuel e (fs.append dir n) (fs.filename e) t w q)
                    es _
                    (new_folder s _ dir n v p
                      (law.copy_directory-real s source dir n v.0 p (check_ok _ tt made)))
                    (law.entries_plain _ source es (check_ok _ es e)))))))

      copy_entry-Safe :
          (fuel : ℕ) (tmp e : Text) (s : fs.State)
          → IsValidId fs root s tmp
          → is_plain (fs.filename e) ≡ true
          → Safe s (copy_entry fs to_string format_utc mime_type fuel tmp e s).1
      unfolding copy_entry
      copy_entry-Safe fuel tmp e s v p = run_if_rule Safe Safe-refl Safe-trans s _ _ (λ _.
          look s _ _ (λ st _.
            run_if_rule Safe Safe-refl Safe-trans s _ _
              (λ _. copy_recursively-Safe fuel e tmp (fs.filename e) s v p)))

      -- The temporary folder and all that goes into it.
      fill-Safe :
          (fuel : ℕ) (es : List Text) (dir u : Text) (s : fs.State)
          → IsValidId fs root s (fs.append dir u)
          → All (λ e. is_plain (fs.filename e) ≡ true) es
          → Safe s
              (for_each
                (copy_entry fs to_string format_utc mime_type fuel (fs.append dir u))
                es
                s).1
      fill-Safe fuel es dir u s v p =
          for_each_rule Safe Safe-refl Safe-trans (λ t. IsValidId fs root t (fs.append dir u))
            (λ e. is_plain (fs.filename e) ≡ true) _ (λ t x r w. StaysReal-IsValidId t x _ r.1 w)
            (λ e t w q. copy_entry-Safe fuel (fs.append dir u) e t w q) es s v p

      same_parent :
          (s : fs.State) (dir parent : Text)
          → IsValidId fs root s dir
          → check (fs.canonical s dir) ≡ returns parent
          → dir ≡ parent
      unfolding IsValidId
      same_parent s dir parent v c = ground (arith, check_ok (fs.canonical s dir) parent c, v.0)

      rename_tmp :
          (s t : fs.State) (dir u n : Text)
          → IsValidId fs root s dir
          → is_plain u ≡ true
          → is_below root (fs.place s (fs.append dir n)) ≡ true
          → IsReal fs t dir
          → IsReal fs t (fs.append dir u)
          → Confined fs root t (fs.rename t (fs.append dir u) (fs.append dir n)).1
      unfolding IsValidId
      rename_tmp s t dir u n v p b real_dir real_tmp q h =
          law.rename_lem t (fs.append dir u) (fs.append dir n) q
            (not_under fs root law not_empty not_slash _ q
              (rw (law.place-real t (fs.append dir u) real_tmp) (
                is_under_below root dir (fs.append dir u) v.1 (
                  law.append-plain s dir u v.0 (under_ne_slash root dir not_empty not_slash v.1)
                    p)))
              h)
            (not_under fs root law not_empty not_slash _ q
              (rw (law.place_same s t dir n v.0 real_dir) b) h)

      copy_through-Confined :
          (fuel : ℕ) (id dir u n : Text) (s : fs.State)
          → IsValidId fs root s dir
          → is_plain u ≡ true
          → IsFree fs s (fs.append dir u)
          → is_below root (fs.place s (fs.append dir n)) ≡ true
          → Confined fs root s
              (copy_through fs to_string format_utc mime_type fuel id
                (fs.append dir u)
                (fs.append dir n)
                s).1
      unfolding copy_through IsValidId
      copy_through-Confined fuel id dir u n s v p free b =
          Confined.next fs root s _ _ _ begun (λ _ made. Confined.look fs root _ _ _ (λ es e.
            let valid_tmp : IsValidId fs root made_tmp (fs.append dir u) =
              new_folder s made_tmp dir u v p
                (law.create_directories-real s dir u v.0 p free (check_ok _ tt made)) in
            let filled =
              fill-Safe fuel es dir u made_tmp valid_tmp
                (law.entries_plain made_tmp id es (check_ok _ es e)) in
            Confined.next fs root _ _ _ _ filled.0 (λ _ _.
              rename_tmp s _ dir u n v p b
                (filled.1 dir (law.create_directories-keeps s (fs.append dir u) dir v.0))
                (filled.1 (fs.append dir u) valid_tmp.0))))
        where
          made_tmp : fs.State
          made_tmp = (fs.create_directories s (fs.append dir u)).1

          begun : Confined fs root s made_tmp
          begun =
              changes-Confined fs root law not_empty not_slash s made_tmp _
                (rw (law.place-plain s dir u v.0 p) (
                  is_under_below root dir (fs.append dir u) v.1 (
                    law.append-plain s dir u v.0 (under_ne_slash root dir not_empty not_slash v.1)
                      p)))
                (law.create_directories_lem s dir u v.0)

      copy_folder-Confined :
          (fuel : ℕ) (id dir n name : Text) (s : fs.State)
          → IsValidId fs root s dir
          → fs.parent_path n ≡ []
          → is_empty n ≡ false
          → Confined fs root s
              (copy_folder fs to_string format_utc mime_type fuel id dir (fs.append dir n) name s).1
      unfolding copy_folder IsValidId
      copy_folder-Confined fuel id dir n name s v e m = Confined.look fs root s _ _ (λ _ x.
          Confined.look fs root s _ _ (λ parent c.
            subst
              (λ d.
                Confined fs root s
                  (copy_through fs to_string format_utc mime_type fuel id
                    (fs.append d (fs.unique_path s pattern)) (fs.append dir n) s).1)
              (same_parent s dir parent v c)
              (copy_through-Confined fuel id dir (fs.unique_path s pattern) n s v
                (law.unique_path_plain s _) (law.unique_path_free s dir _ v.0)
                (place_below fs root law not_empty not_slash s dir n v e m
                  (throw_if_exists-IsAbsent fs root s _ _ _ x)))))
        where
          pattern : Text
          pattern = tmpfile_prefix ++ text "-%%%%-%%%%-%%%%-%%%%"

      -- `copy_file` changes nothing if something is there.
      copy_file-Confined :
          (id dir n : Text) (s : fs.State)
          → IsValidId fs root s dir
          → fs.parent_path n ≡ []
          → is_empty n ≡ false
          → Confined fs root s (fs.copy_file s id (fs.append dir n)).1
      copy_file-Confined id dir n s v e m =
          elim (Bool-cases (is_absent (fs.status s (fs.append dir n)))) [
            | inr taken ↦
                subst (Confined fs root s) (sym (law.copy_file_existing s id _ taken))
                  (Confined-refl fs root s)
            | inl free ↦
                changes-Confined fs root law not_empty not_slash s _ _
                  (place_below fs root law not_empty not_slash s dir n v e m free)
                  (law.copy_file_lem s id _)
          ]

      pub copy-Confined :
          (fuel : ℕ) (id dir name : Text) (s : fs.State)
          → Confined fs root s (copy fs to_string format_utc mime_type fuel root id dir name s).1
      unfolding copy copy_item
      copy-Confined fuel id dir name s = Confined.look fs root s _ _ (λ _ _.
          Confined.look fs root s _ _ (λ _ v. Confined.look fs root s _ _ (λ n m.
            Confined.look fs root s _ _ (λ st _.
              Confined.next fs root s _ _ _
                (by_kind (is_directory st) n (throw_if_not_valid-IsValidId fs root s _ dir v)
                  (sanitize-name fs root _ name n m))
                (λ _ _. item_at-Confined fs root to_string format_utc mime_type _ _ _)))))
        where
          by_kind :
              (b : Bool) (n : Text)
              → IsValidId fs root s dir
              → (n ≡ name) × (fs.parent_path name ≡ []) × (is_empty (fs.filename name) ≡ false)
              → Confined fs root s
                  (copy_item fs to_string format_utc mime_type b fuel id dir
                    (fs.append dir n)
                    name
                    s).1
          by_kind true n v (same, one, some_name) =
              copy_folder-Confined fuel id dir n name s v (rw same one)
                (rw same (name_not_empty fs root law not_empty not_slash name some_name))
          by_kind false n v (same, one, some_name) =
              copy_file-Confined id dir n s v (rw same one)
                (rw same (name_not_empty fs root law not_empty not_slash name some_name))
