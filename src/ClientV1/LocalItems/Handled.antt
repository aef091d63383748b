-- ===== src/ClientV1/LocalItems/Handled.antt =====
-- Errors of the file system in a copy by the local client: src/qt/client/internal/local_client.
use storage_framework.Base.{ℕ, Bool, true, false, some, arith}
use storage_framework.Base.Text.{Text, text}
use storage_framework.Local.Outcome.{FilesystemError}
use storage_framework.Local.FileSystem.{FileSystem}
use storage_framework.ClientV1.Exceptions.{StorageException}
use storage_framework.ClientV1.World.{
  World, Answer, returns, throws, filesystem_error, unfinished, dangling, M, after, deref, throw_if,
  throw_if_destroyed, catching,
}
use storage_framework.ClientV1.LocalItems.{Env, copy, both_alive, copy_task}

module _ {S : Type 0} where
  -- No `filesystem_error` comes through.
  unfoldable pub Handled : {A : Type 0} → Answer A × World S → Type 0
  Handled (filesystem_error e, s) = ⊥
  Handled _ = Unit

  after-Handled :
      {A B : Type 0} (m : Answer A × World S) (f : A → M S B)
      → Handled m
      → ((a : A) (t : World S) → Handled (f a t))
      → Handled (after m.0 m.1 f)
  unfolding after Handled
  after-Handled (returns a, t) f k h = h a t
  after-Handled (throws e, t) f k h = tt
  after-Handled (filesystem_error e, t) f k h = k
  after-Handled (unfinished, t) f k h = tt
  after-Handled (dangling, t) f k h = tt

  catching-Handled :
      {A : Type 0} (g : FilesystemError → StorageException) (m : Answer A × World S)
      → Handled (catching g m)
  unfolding catching Handled
  catching-Handled g (returns a, t) = tt
  catching-Handled g (throws e, t) = tt
  catching-Handled g (filesystem_error e, t) = tt
  catching-Handled g (unfinished, t) = tt
  catching-Handled g (dangling, t) = tt

  throw_if-Handled : (b : Bool) (e : StorageException) (t : World S) → Handled (throw_if b e t)
  unfolding throw_if Handled
  throw_if-Handled true e t = tt
  throw_if-Handled false e t = tt

module _ (fs : FileSystem) (env : Env fs) where
  both_alive-Handled :
      (m : Text) (i p : ℕ) (t : World fs.State) → Handled (both_alive fs env m i p t)
  unfolding both_alive deref throw_if_destroyed after Handled
  both_alive-Handled m i p t = ground arith

  tested :
      {A : Type 0} (b : Bool) (e : StorageException) (f : Unit {0} → M fs.State A)
      (t : World fs.State)
      → ((u : World fs.State) → Handled (f tt u))
      → Handled (after (throw_if b e t).0 (throw_if b e t).1 f)
  tested b e f t h = after-Handled (throw_if b e t) f (throw_if-Handled b e t) (λ _ u. h u)

  pub copy-Handled :
      (i p : ℕ) (n : Text) (t : World fs.State) → Handled (copy fs env i (some p) n t)
  unfolding copy copy_task
  copy-Handled i p n t =
      after-Handled (both_alive fs env (text "Item::copy()") i p t) _ (both_alive-Handled _ i p t)
        (λ _ u.
          after-Handled (both_alive fs env (text "Item::copy()") i p u) _
            (both_alive-Handled _ i p u) (λ both v. tested _ _ _ v (λ x. catching-Handled _ _)))
