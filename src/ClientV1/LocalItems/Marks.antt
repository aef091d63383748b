-- ===== src/ClientV1/LocalItems/Marks.antt =====
-- How objects of the local client come to be marked as deleted: src/qt/client/internal/local_client/ItemImpl.cpp.
use storage_framework.Base.{
  ℕ, zero, suc, Bool, true, false, ◌≡◌, refl, some, List, [], ◌∷◌, ◌++◌, map, arith, subst, sym,
}
use storage_framework.Base.Text.{Text, text}
use storage_framework.Local.Outcome.{FilesystemError}
use storage_framework.Local.FileSystem.{FileSystem}
use storage_framework.Base.Common.{ItemType}
use storage_framework.ClientV1.Exceptions.{StorageException}
use storage_framework.Local.Lawful.{All}
use storage_framework.ClientV1.World.{
  Object, World, Answer, answer_of, act, ◌>>=◌, ◌>>◌, returns, throws, filesystem_error, unfinished,
  dangling, M, after, deref, object, set_object, throw_if, throw_if_destroyed, native_identity,
  catching, mark_deleted, new_object,
}
use storage_framework.ClientV1.LocalItems.{
  Env, move, move_task, move_to, delete_item, delete_task, alive, both_alive, sanitize, make_object,
  throw_if_exists, throw_if_reserved, moved_type,
}
use storage_framework.ClientV1.LocalItems.Folders.{Paths}
use storage_framework.ClientV1.LocalItems.Requests.{
  Request, move_of, delete_of, Reply, serve, reply_with,
}
use storage_framework.ClientV1.LocalItems.Deleted.{NamesObject, deleted_exception, serve-deleted}

object-set_object :
    (os : List Object) (i : ℕ) (o x : Object)
    → object os i ≡ some o
    → object (set_object os i x) i ≡ some x
object-set_object [] i o x h = absurd (cc)
object-set_object (y ∷ os) zero o x h = refl
object-set_object (y ∷ os) (suc i) o x h = object-set_object os i o x h

object-append :
    (os ps : List Object) (i : ℕ) (o : Object) → object os i ≡ some o → object (os ++ ps) i ≡ some o
object-append [] ps i o h = absurd (cc)
object-append (y ∷ os) ps zero o h = h
object-append (y ∷ os) ps (suc i) o h = object-append os ps i o h

module _ {S : Type 0} (i : ℕ) where
  -- Where a call has returned, the object is there and marked.
  abbrev IsMarked : World S → Type 0
  IsMarked s = (o : Object) × (object s.objects i ≡ some o) × (o.deleted ≡ true)

  Marks : {B : Type 0} → Answer B × World S → Type 0
  Marks (returns b, s) = IsMarked s
  Marks _ = Unit

  after-Marks :
      {A B : Type 0} (m : Answer A) (t : World S) (f : A → M S B)
      → ((a : A) → m ≡ returns a → Marks (f a t))
      → Marks (after m t f)
  unfolding after Marks
  after-Marks (returns a) t f h = h a refl
  after-Marks (throws e) t f h = tt
  after-Marks (filesystem_error e) t f h = tt
  after-Marks unfinished t f h = tt
  after-Marks dangling t f h = tt

  -- What comes after a call that has marked it leaves the mark.
  then-Marks :
      {A B : Type 0} (m : Answer A × World S) (f : A → M S B)
      → Marks m
      → ((a : A) (t : World S) → IsMarked t → Marks (f a t))
      → Marks (after m.0 m.1 f)
  unfolding after Marks
  then-Marks (returns a, t) f k h = h a t k
  then-Marks (throws e, t) f k h = tt
  then-Marks (filesystem_error e, t) f k h = tt
  then-Marks (unfinished, t) f k h = tt
  then-Marks (dangling, t) f k h = tt

  catching-Marks :
      {A : Type 0} (g : FilesystemError → StorageException) (m : Answer A × World S)
      → Marks m
      → Marks (catching g m)
  unfolding catching Marks
  catching-Marks g (returns a, t) k = k
  catching-Marks g (throws e, t) k = tt
  catching-Marks g (filesystem_error e, t) k = tt
  catching-Marks g (unfinished, t) k = tt
  catching-Marks g (dangling, t) k = tt

module _ (fs : FileSystem) (env : Env fs) (i : ℕ) (o : Object) where
  -- The object is where it was.
  abbrev There : World fs.State → Type 0
  There s = object s.objects i ≡ some o

  step-Marks :
      {A B : Type 0} (m : Answer A × World fs.State) (f : A → M fs.State B)
      → There m.1
      → ((a : A) (t : World fs.State) → There t → Marks i (f a t))
      → Marks i (after m.0 m.1 f)
  step-Marks m f t h = after-Marks i m.0 m.1 f (λ a _. h a m.1 t)

  native_identity-There :
      (x : Object) (t : World fs.State) → There t → There (native_identity x t).1
  unfolding native_identity throw_if_destroyed after
  native_identity-There x t h = ground arith

  throw_if-There :
      (b : Bool) (e : StorageException) (t : World fs.State) → There t → There (throw_if b e t).1
  unfolding throw_if
  throw_if-There true e t h = h
  throw_if-There false e t h = h

  sanitize-There : (n m : Text) (t : World fs.State) → There t → There (sanitize fs env n m t).1
  unfolding sanitize throw_if after
  sanitize-There n m t h = ground arith

  throw_if_exists-There :
      (m p x y z : Text) (t : World fs.State)
      → There t
      → There (throw_if_exists fs env m p x y z t).1
  unfolding throw_if after
  throw_if_exists-There m p x y z t h = ground arith

  mark_deleted-Marks : (t : World fs.State) → There t → Marks i (mark_deleted i o t)
  unfolding mark_deleted Marks
  mark_deleted-Marks t h = (_, object-set_object t.objects i o _ h, refl)

  make_object-Marks :
      (type : ItemType) (p : Text) (parent : Object) (t : World fs.State)
      → IsMarked {S = fs.State} i t
      → Marks i (make_object fs env type p parent t)
  unfolding make_object new_object Marks
  make_object-Marks type p parent t (x, there, gone) =
      after-Marks i (answer_of (fs.canonical t.fs p)) t _
        (λ c _. (x, object-append t.objects _ i x there, gone))

  delete_this :
      (t : World fs.State)
      → There t
      → Marks i ((do p ← native_identity o; act (λ s. fs.remove_all s p); mark_deleted i o) t)
  delete_this t h =
      step-Marks (native_identity o t) _ (native_identity-There o t h)
        (λ p u k. step-Marks (act (λ s. fs.remove_all s p) u) _ k (λ _ v l. mark_deleted-Marks v l))

  move_to-Marks :
      (parent : Object) (new_name : Text) (t : World fs.State)
      → There t
      → Marks i (move_to fs env i o parent new_name t)
  unfolding move_to
  move_to-Marks parent new_name t h =
      step-Marks (native_identity parent t) _ (native_identity-There parent t h) (λ dir t1 h1.
        step-Marks (sanitize fs env new_name (text "Item::move()") t1) _
          (sanitize-There new_name (text "Item::move()") t1 h1)
          (λ n t2 h2.
            step-Marks
              (throw_if_exists fs env (text "Item::move()") (fs.append dir n) new_name o.identity
                o.name t2)
              _
              (throw_if_exists-There (text "Item::move()") (fs.append dir n) new_name o.identity
                o.name t2 h2)
              (λ _ t3 h3.
                step-Marks (throw_if_reserved fs env (text "Item::move()") (fs.append dir n) t3) _
                  (throw_if-There _ _ t3 h3)
                  (λ _ t4 h4.
                    step-Marks (native_identity o t4) _ (native_identity-There o t4 h4)
                      (λ source t5 h5.
                        step-Marks (act (λ s. fs.rename s source (fs.append dir n)) t5) _ h5
                          (λ _ t6 h6.
                            then-Marks i (mark_deleted i o t6) _ (mark_deleted-Marks t6 h6)
                              (λ _ t7 h7.
                                make_object-Marks (moved_type fs env o.type) (fs.append dir n)
                                  parent t7 h7)))))))

module _ (fs : FileSystem) (env : Env fs) (i : ℕ) (w : World fs.State) where
  alive-found :
      (m : Text) (o : Object)
      → (alive fs env m i w).0 ≡ returns o
      → (object w.objects i ≡ some o) × ((alive fs env m i w).1 ≡ w)
  unfolding alive deref throw_if_destroyed after
  alive-found m o h = ground arith

  both-found :
      (m : Text) (p : ℕ) (both : Object × Object)
      → (both_alive fs env m i p w).0 ≡ returns both
      → (object w.objects i ≡ some both.0) × ((both_alive fs env m i p w).1 ≡ w)
  unfolding both_alive deref throw_if_destroyed after
  both-found m p both h = ground arith

  delete_task-Marks : Marks i (delete_task fs env i w)
  unfolding delete_task
  delete_task-Marks =
      after-Marks i (alive fs env (text "Item::delete_item()") i w).0
        (alive fs env (text "Item::delete_item()") i w).1 _
        (λ o k.
          let (there, same) = alive-found (text "Item::delete_item()") o k in
          catching-Marks i _ _ (
            delete_this fs env i o (alive fs env (text "Item::delete_item()") i w).1
              (subst (λ t. object t.objects i ≡ some o) (sym same) there)))

  move_task-Marks : (p : ℕ) (new_name : Text) → Marks i (move_task fs env i p new_name w)
  unfolding move_task
  move_task-Marks p new_name =
      let r = both_alive fs env (text "Item::move()") i p w in
      after-Marks i r.0 r.1 _ (λ both k.
        let (there, same) = both-found (text "Item::move()") p both k in
        step-Marks fs env i both.0 (throw_if _ _ r.1) _
          (throw_if-There fs env i both.0 _ _ r.1
            (subst (λ t. object t.objects i ≡ some both.0) (sym same) there))
          (λ _ t1 h1.
            step-Marks fs env i both.0 (throw_if _ _ t1) _
              (throw_if-There fs env i both.0 _ _ t1 h1)
              (λ _ t2 h2.
                catching-Marks i _ _ (move_to-Marks fs env i both.0 both.1 new_name t2 h2))))

-- The calls that take an item away from where its object has it.
abbrev pub takes_away : Request → Bool
takes_away delete_of = true
takes_away (move_of p n) = true
takes_away _ = false

module _ (fs : FileSystem) (env : Env fs) (paths : Paths) (i : ℕ) where
  delete_item-Marks : (w : World fs.State) → Marks i (delete_item fs env i w)
  unfolding delete_item
  delete_item-Marks w =
      let r = alive fs env (text "Item::delete_item()") i w in
      after-Marks i r.0 r.1 _ (λ o _.
        after-Marks i (throw_if _ _ r.1).0 (throw_if _ _ r.1).1 _
          (λ _ _. delete_task-Marks fs env i _))

  move-Marks : (p : ℕ) (n : Text) (w : World fs.State) → Marks i (move fs env i (some p) n w)
  unfolding move
  move-Marks p n w =
      let r = both_alive fs env (text "Item::move()") i p w in
      after-Marks i r.0 r.1 _ (λ _ _. move_task-Marks fs env i r.1 p n)

  serve-Marks :
      (d : Request) (w : World fs.State) → takes_away d ≡ true → Marks i (serve fs env paths d i w)
  unfolding serve reply_with Marks
  serve-Marks delete_of w t =
      then-Marks i (delete_item fs env i w) _ (delete_item-Marks w) (λ _ u k. k)
  serve-Marks (move_of p n) w t =
      then-Marks i (move fs env i (some p) n w) _ (move-Marks p n w) (λ _ u k. k)
  serve-Marks _ w t = absurd (cc)

  marked :
      {B : Type 0} (m : Answer B × World fs.State) (b : B)
      → Marks i m
      → m.0 ≡ returns b
      → IsMarked {S = fs.State} i m.1
  unfolding Marks
  marked (returns x, s) b k e = k
  marked (throws x, s) b k e = absurd (cc)
  marked (filesystem_error x, s) b k e = absurd (cc)
  marked (unfinished, s) b k e = absurd (cc)
  marked (dangling, s) b k e = absurd (cc)

  -- Calls on one object, one after the other.
  unfoldable pub serve_all : List Request → World fs.State → List (Answer Reply) × World fs.State
  serve_all [] w = ([], w)
  serve_all (r ∷ rs) w =
      let (a, t) = serve fs env paths r i w in let (answers, u) = serve_all rs t in (a ∷ answers, u)

  serve_all-deleted :
      (rs : List Request) (w : World fs.State) (o : Object)
      → object w.objects i ≡ some o
      → o.deleted ≡ true
      → All (λ r. NamesObject r w) rs
      → serve_all rs w ≡ (map (λ r. throws (deleted_exception r o)) rs, w)
  unfolding serve_all
  serve_all-deleted [] w o there gone n = refl
  serve_all-deleted (r ∷ rs) w o there gone n =
      rw
        (serve-deleted fs env paths i w o there gone r n.0, serve_all-deleted rs w o there gone n.1)
        refl

  -- Once an object's item was deleted or moved away by a call that has returned, every one of a series of
  -- calls on that object, with no call on another object between them, throws DeletedException with the
  -- item's identity and changes nothing, neither a file nor an object. The calls are those of `Request`;
  -- `equal_to` and `root`, which answer without that test, are not among them. The folders that
  -- copies and moves in the series name must be objects.
  pub serve_all-serve :
      (d : Request) (rs : List Request) (w : World fs.State) (a : Reply)
      → takes_away d ≡ true
      → (serve fs env paths d i w).0 ≡ returns a
      → All (λ r. NamesObject r (serve fs env paths d i w).1) rs
      → (o : Object) × (object (serve fs env paths d i w).1.objects i ≡ some o)
        × (serve_all rs (serve fs env paths d i w).1
            ≡ (map (λ r. throws (deleted_exception r o)) rs, (serve fs env paths d i w).1))
  serve_all-serve d rs w a t e n =
      let (o, there, gone) = marked (serve fs env paths d i w) a (serve-Marks d w t) e in
      (o, there, serve_all-deleted rs (serve fs env paths d i w).1 o there gone n)
