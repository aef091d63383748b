-- ===== src/ClientV1/LocalItems/Ends.antt =====
-- How a copy ends: `ItemImpl::copy` of src/qt/client/internal/local_client/ItemImpl.cpp.
use storage_framework.Base.{
  ℕ, zero, suc, ◌+◌, ◌≤◌, ◌<◌, Bool, true, false, ◌≡◌, refl, subst, sym, some, List, [], ◌∷◌,
  length, arith,
}
use storage_framework.Base.Text.{Text, text}
use storage_framework.Base.Common.{ItemType, file, folder, root}
use storage_framework.Local.Outcome.{FilesystemError, Result, ok, fails}
use storage_framework.Local.FileSystem.{
  FileSystem, FileType, file_not_found, regular_file, directory_file, other_file, FileStatus,
}
use storage_framework.Local.Lawful.{All, IsBounded}
use storage_framework.ClientV1.Exceptions.{StorageException}
use storage_framework.ClientV1.World.{
  Object, World, Answer, returns, throws, filesystem_error, unfinished, dangling, M, after,
  answer_of, object, deref, throw_if, throw_if_destroyed, native_identity, catching, run_if,
  for_each, new_object,
}
use storage_framework.ClientV1.LocalItems.{
  Env, copy, copy_task, copy_to, made_copy, copy_folder, copy_entry, copy_recursively, by_type,
  both_alive, make_object, sanitize,
}
use storage_framework.ClientV1.LocalItems.Handled.{Handled, copy-Handled}

-- The code has come to an end, with no pointer that points nowhere.
abbrev pub ends : {A : Type 0} → Answer A → Bool
ends unfinished = false
ends dangling = false
ends _ = true

-- The client gets a value or an exception of the library.
abbrev pub is_answered : {A : Type 0} → Answer A → Bool
is_answered (returns a) = true
is_answered (throws e) = true
is_answered _ = false

answer_of-ends : {A : Type 0} (r : Result A) → ends (answer_of r) ≡ true
answer_of-ends (ok a) = refl
answer_of-ends (fails e) = refl

answer_of-ok : {A : Type 0} (r : Result A) (a : A) → answer_of r ≡ returns a → r ≡ ok a
answer_of-ok (ok x) a h = ground arith
answer_of-ok (fails e) a h = absurd (cc)

module _ {S : Type 0} where
  after-ends :
      {A B : Type 0} (a : Answer A) (t : World S) (f : A → M S B)
      → ends a ≡ true
      → ((x : A) → a ≡ returns x → ends (f x t).0 ≡ true)
      → ends (after a t f).0 ≡ true
  unfolding after
  after-ends (returns a) t f h k = k a refl
  after-ends (throws e) t f h k = refl
  after-ends (filesystem_error e) t f h k = refl
  after-ends unfinished t f h k = absurd (cc)
  after-ends dangling t f h k = absurd (cc)

  throw_if-ends : (b : Bool) (e : StorageException) (t : World S) → ends (throw_if b e t).0 ≡ true
  unfolding throw_if
  throw_if-ends true e t = refl
  throw_if-ends false e t = refl

  run_if-ends :
      (b : Bool) (m : M S (Unit {0})) (t : World S)
      → (b ≡ true → ends (m t).0 ≡ true)
      → ends (run_if b m t).0 ≡ true
  unfolding run_if
  run_if-ends true m t h = h refl
  run_if-ends false m t h = refl

  for_each-ends :
      {A : Type 0} (P : A → Type 0) (f : A → M S (Unit {0}))
      → ((a : A) (t : World S) → P a → ends (f a t).0 ≡ true)
      → (xs : List A) (t : World S) → All P xs
      → ends (for_each f xs t).0 ≡ true
  unfolding for_each
  for_each-ends P f h [] t p = refl
  for_each-ends P f h (x ∷ xs) t p =
      after-ends (f x t).0 _ _ (h x t p.0) (λ _ _. for_each-ends P f h xs (f x t).1 p.1)

  native_identity-ends : (o : Object) (t : World S) → ends (native_identity o t).0 ≡ true
  unfolding native_identity throw_if_destroyed after
  native_identity-ends o t = ground arith

  catching-ends :
      {A : Type 0} (g : FilesystemError → StorageException) (m : Answer A × World S)
      → ends m.0 ≡ true
      → ends (catching g m).0 ≡ true
  unfolding catching
  catching-ends g (returns a, t) h = refl
  catching-ends g (throws e, t) h = refl
  catching-ends g (filesystem_error e, t) h = refl
  catching-ends g (unfinished, t) h = absurd (cc)
  catching-ends g (dangling, t) h = absurd (cc)

  answered :
      {A : Type 0} (m : Answer A × World S) → ends m.0 ≡ true → Handled m → is_answered m.0 ≡ true
  unfolding Handled
  answered (returns a, t) h k = refl
  answered (throws e, t) h k = refl
  answered (filesystem_error e, t) h k = absurd k
  answered (unfinished, t) h k = absurd (cc)
  answered (dangling, t) h k = absurd (cc)

module _ (fs : FileSystem) (env : Env fs) where
  make_object-ends :
      (type : ItemType) (id : Text) (o : Object) (t : World fs.State)
      → ends (make_object fs env type id o t).0 ≡ true
  unfolding make_object new_object
  make_object-ends type id o t = after-ends _ _ _ (answer_of-ends _) (λ _ _. refl)

  sanitize-ends :
      (name method : Text) (t : World fs.State) → ends (sanitize fs env name method t).0 ≡ true
  unfolding sanitize
  sanitize-ends name method t =
      after-ends _ _ _ (throw_if-ends _ _ t)
        (λ _ _. after-ends _ _ _ (throw_if-ends _ _ _) (λ _ _. refl))

  by_type-ends :
      (k : FileType) (f d : M fs.State (Unit {0})) (t : World fs.State)
      → ends (f t).0 ≡ true
      → ends (d t).0 ≡ true
      → ends (by_type fs env k f d t).0 ≡ true
  unfolding by_type
  by_type-ends regular_file f d t h k = h
  by_type-ends directory_file f d t h k = k
  by_type-ends other_file f d t h k = refl
  by_type-ends file_not_found f d t h k = refl

  both_alive-ends :
      (m : Text) (i p : ℕ) (o q : Object) (t : World fs.State)
      → object t.objects i ≡ some o
      → object t.objects p ≡ some q
      → (ends (both_alive fs env m i p t).0 ≡ true) × ((both_alive fs env m i p t).1 ≡ t)
  unfolding both_alive deref throw_if_destroyed after
  both_alive-ends m i p o q t h k = ground arith

  module _ (bounded : IsBounded fs) (enough : fs.path_max + 2 ≤ env.fuel) where
    not_too_long :
        (s : fs.State) (p : Text) (st : FileStatus) → fs.status s p ≡ ok st → length p ≤ fs.path_max
    not_too_long s p st h = ground (arith, bounded.too_long s p)

    -- Each level of folders makes the path longer.
    copy_recursively-ends :
        (fuel : ℕ) (source target : Text) (t : World fs.State)
        → 0 < fuel
        → fs.path_max + 2 ≤ fuel + length source
        → ends (copy_recursively fs env fuel source target t).0 ≡ true
    unfolding copy_recursively
    copy_recursively-ends zero source target t pos deep = absurd (omega arith)
    copy_recursively-ends (suc fuel) source target t pos deep = run_if-ends _ _ t (λ _.
        after-ends _ _ _ (answer_of-ends _) (λ st found. by_type-ends _ _ _ t (answer_of-ends _) (
          after-ends _ _ _ (answer_of-ends _) (λ _ _.
            after-ends _ _ _ (answer_of-ends _) (λ es listed.
              for_each-ends (λ e. length source < length e) _
                (λ e u longer.
                  copy_recursively-ends fuel e _ u
                    (omega (arith, not_too_long t.fs source st (answer_of-ok _ st found)))
                    (omega arith))
                es _ (bounded.entries_longer _ source es (answer_of-ok _ es listed)))))))

    copy_entry-ends :
        (tmp e : Text) (t : World fs.State) → ends (copy_entry fs env tmp e t).0 ≡ true
    unfolding copy_entry
    copy_entry-ends tmp e t = run_if-ends _ _ t (λ _. after-ends _ _ _ (answer_of-ends _) (λ st _.
        run_if-ends _ _ t (λ _. copy_recursively-ends env.fuel e _ t (omega arith) (omega arith))))

    copy_folder-ends :
        (source dir target : Text) (t : World fs.State)
        → ends (copy_folder fs env source dir target t).0 ≡ true
    unfolding copy_folder
    copy_folder-ends source dir target t = after-ends _ _ _ (answer_of-ends _) (λ _ _.
        after-ends _ _ _ (answer_of-ends _) (λ _ _.
          after-ends _ _ _ (answer_of-ends _) (λ es listed.
            after-ends _ _ _
              (for_each-ends (λ e. length source < length e) _ (λ e u _. copy_entry-ends _ e u) es _
                (bounded.entries_longer _ source es (answer_of-ok _ es listed)))
              (λ _ _. answer_of-ends _))))

    folder_made :
        (source dir target : Text) (parent : Object) (t : World fs.State)
        → ends
            (after
              (copy_folder fs env source dir target t).0
              (copy_folder fs env source dir target t).1
              (λ _. make_object fs env folder target parent)).0
          ≡ true
    folder_made source dir target parent t =
        after-ends _ _ _ (copy_folder-ends source dir target t) (λ _ _. make_object-ends _ _ _ _)

    made_copy-ends :
        (type : ItemType) (source dir target : Text) (parent : Object) (t : World fs.State)
        → ends (made_copy fs env type source dir target parent t).0 ≡ true
    unfolding made_copy
    made_copy-ends file source dir target parent t =
        after-ends _ _ _ (answer_of-ends _) (λ _ _. make_object-ends _ _ _ _)
    made_copy-ends folder source dir target parent t = folder_made source dir target parent t
    made_copy-ends root source dir target parent t = folder_made source dir target parent t

    copy_to-ends :
        (this parent : Object) (new_name : Text) (t : World fs.State)
        → ends (copy_to fs env this parent new_name t).0 ≡ true
    unfolding copy_to
    copy_to-ends this parent new_name t = after-ends _ _ _ (native_identity-ends this t) (λ _ _.
        after-ends _ _ _ (native_identity-ends parent _) (λ _ _.
          after-ends _ _ _ (sanitize-ends _ _ _) (λ _ _.
            after-ends _ _ _ (throw_if-ends _ _ _) (λ _ _.
              after-ends _ _ _ (after-ends _ _ _ (answer_of-ends _) (λ _ _. throw_if-ends _ _ _))
                (λ _ _. made_copy-ends this.type _ _ _ parent _)))))

    copy_task-ends :
        (i p : ℕ) (new_name : Text) (o q : Object) (t : World fs.State)
        → object t.objects i ≡ some o
        → object t.objects p ≡ some q
        → ends (copy_task fs env i p new_name t).0 ≡ true
    unfolding copy_task
    copy_task-ends i p new_name o q t h k =
        after-ends _ _ _ (both_alive-ends _ i p o q t h k).0 (λ _ _.
          after-ends _ _ _ (throw_if-ends _ _ _) (λ _ _. catching-ends _ _ (copy_to-ends _ _ _ _)))

    copy-ends :
        (i p : ℕ) (new_name : Text) (o q : Object) (t : World fs.State)
        → object t.objects i ≡ some o
        → object t.objects p ≡ some q
        → ends (copy fs env i (some p) new_name t).0 ≡ true
    unfolding copy
    copy-ends i p new_name o q t h k =
        let (fine, same) = both_alive-ends (text "Item::copy()") i p o q t h k in
        after-ends _ _ _ fine (λ _ _.
          subst (λ u. ends (copy_task fs env i p new_name u).0 ≡ true) (sym same)
            (copy_task-ends i p new_name o q t h k))

    -- A copy comes to an end with a value or an exception of the library, if its fuel is at least the bound
    -- on the length of a path and two more. It holds on a file system that obeys IsBounded, where the
    -- pointers to the item and to the folder are good.
    pub copy-is_answered :
        (i p : ℕ) (new_name : Text) (o q : Object) (w : World fs.State)
        → object w.objects i ≡ some o
        → object w.objects p ≡ some q
        → is_answered (copy fs env i (some p) new_name w).0 ≡ true
    copy-is_answered i p new_name o q w h k =
        answered (copy fs env i (some p) new_name w) (copy-ends i p new_name o q w h k)
          (copy-Handled fs env i p new_name w)
