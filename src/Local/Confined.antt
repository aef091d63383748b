-- ===== src/Local/Confined.antt =====
-- What the local provider's operations change, and the paths that they reach:
-- src/local-provider/LocalProvider.cpp.
pub mod Folders
pub mod Copies
pub mod Requests
use storage_framework.Base.{
  ℕ, zero, suc, Bool, true, false, not, ◌&&◌, ◌||◌, ◌≡◌, ◌∙◌, refl, sym, ap, subst, List, [], ◌∷◌,
  ◌++◌, is_empty, Bool-cases, inl, inr, arith,
}
use storage_framework.Base.Text.{Text, text, text_eq, text_eq→eq}
use storage_framework.Base.Int.{ℤ}
use storage_framework.Errors.Exceptions.{StorageException}
use storage_framework.Local.Outcome.{
  Result, ok, fails, Outcome, returns, throws, filesystem_error, unfinished, check,
}
use storage_framework.Local.FileSystem.{
  FileSystem, FileStatus, exists, IsReal, IsAbsent, is_absent, SameAt, StaysReal, is_under,
  is_below, is_plain, slash,
}
use storage_framework.Local.Lawful.{All, ChangesOnly, IsLawful}
use storage_framework.Local.Below.{is_below_under, is_under_below, under_ne_slash}
use storage_framework.Local.Guards.{
  canonical_id, throw_if_not_valid, throw_if_exists, throw_if_root, sanitize, invoke_async,
}
use storage_framework.Local.Steps.{M, after, throw_if, run_if, for_each}
use storage_framework.Local.Rules.{after_rule, look_rule, throw_if_rule, run_if_rule, for_each_rule}

is_empty_lem : (s : Text) → is_empty s ≡ true → s ≡ []
is_empty_lem [] h = refl
is_empty_lem (c ∷ s) h = cc

module _ (fs : FileSystem) (root : Text) where
  -- Only what is below the root has changed.
  abbrev pub Confined : fs.State → fs.State → Type 0
  Confined s t = (q : Text) → is_below root q ≡ false → SameAt fs s t q

  pub Confined-refl : (s : fs.State) → Confined s s
  Confined-refl s q h = refl

  pub Confined-trans : (s t u : fs.State) → Confined s t → Confined t u → Confined s u
  Confined-trans s t u f g q h = g q h ∙ f q h

  pub IsValidId : fs.State → Text → Type 0
  IsValidId s id = IsReal fs s id × (is_under root id ≡ true)

  pub throw_if_not_valid-IsValidId :
      (s : fs.State) (method id : Text)
      → throw_if_not_valid fs root s method id ≡ returns tt
      → IsValidId s id
  unfolding throw_if_not_valid IsValidId
  throw_if_not_valid-IsValidId s method id h = go (fs.canonical s id) h
    where
      go :
          (r : Result Text)
          → canonical_id fs root method id r ≡ returns tt
          → (r ≡ ok id) × (is_under root id ≡ true)
      go (ok p) k = ground (arith, text_eq→eq p id)
      go (fails x) k = absurd (cc)

  pub sanitize-name :
      (method name n : Text)
      → sanitize fs method name ≡ returns n
      → (n ≡ name) × (fs.parent_path name ≡ []) × (is_empty (fs.filename name) ≡ false)
  unfolding sanitize
  sanitize-name method name n h = ground (arith, is_empty_lem (fs.parent_path name))

  pub throw_if_exists-IsAbsent :
      (s : fs.State) (method p name : Text)
      → throw_if_exists fs s method p name ≡ returns tt
      → IsAbsent fs s p
  unfolding throw_if_exists
  throw_if_exists-IsAbsent s method p name h = ground arith

  module _ (law : IsLawful fs) (not_empty : is_empty root ≡ false)
      (not_slash : text_eq root slash ≡ false) where
    pub not_under :
        (p q : Text) → is_below root p ≡ true → is_below root q ≡ false → is_under p q ≡ false
    not_under p q b h = elim (Bool-cases (is_under p q)) [
      | inl u ↦ absurd (cc (is_below_under root p q b u))
      | inr n ↦ n
    ]

    pub changes-Confined :
        (s t : fs.State) (p : Text) → is_below root p ≡ true → ChangesOnly fs s p t → Confined s t
    changes-Confined s t p b c q h = c q (not_under p q b h)

    -- A name that is absent from a valid folder leads to an entry below the root.
    pub place_below :
        (s : fs.State) (dir n : Text)
        → IsValidId s dir
        → fs.parent_path n ≡ []
        → is_empty n ≡ false
        → IsAbsent fs s (fs.append dir n)
        → is_below root (fs.place s (fs.append dir n)) ≡ true
    unfolding IsValidId
    place_below s dir n v e m a =
        is_under_below root dir (fs.place s (fs.append dir n)) v.1
          (law.place-append s dir n v.0 (under_ne_slash root dir not_empty not_slash v.1) m e a)

    pub name_not_empty : (n : Text) → is_empty (fs.filename n) ≡ false → is_empty n ≡ false
    name_not_empty [] h = absurd (cc (ap is_empty law.filename-empty))
    name_not_empty (c ∷ n) h = refl

    -- The entry that a new name leads to, once its checks are passed.
    pub target_below :
        (s : fs.State) (method dir name n : Text)
        → throw_if_not_valid fs root s method dir ≡ returns tt
        → sanitize fs method name ≡ returns n
        → IsAbsent fs s (fs.append dir n)
        → is_below root (fs.place s (fs.append dir n)) ≡ true
    target_below s method dir name n v m a =
        let (same, one, some_name) = sanitize-name method name n m in
        place_below s dir n (throw_if_not_valid-IsValidId s method dir v) (rw same one)
          (rw same (name_not_empty name some_name)) a

    -- A valid id other than the root's is below it.
    pub id_below :
        (s : fs.State) (method message id : Text)
        → throw_if_not_valid fs root s method id ≡ returns tt
        → throw_if_root fs s root message id ≡ returns tt
        → is_below root (fs.place s id) ≡ true
    unfolding throw_if_root is_under IsValidId
    id_below s method message id v r =
        let (real, under) = throw_if_not_valid-IsValidId s method id v in
        ground (arith, real, under, law.place-real s id real)

  -- The rules, for this relation.
  pub look :
      {A B : Type 0} (s : fs.State) (o : Outcome A) (f : A → M fs.State B)
      → ((a : A) → o ≡ returns a → Confined s (f a s).1)
      → Confined s (after o s f).1
  look = look_rule Confined Confined-refl Confined-trans

  pub next :
      {A B : Type 0} (s t : fs.State) (o : Outcome A) (f : A → M fs.State B)
      → Confined s t
      → ((a : A) → o ≡ returns a → Confined t (f a t).1)
      → Confined s (after o t f).1
  next = after_rule Confined Confined-refl Confined-trans

  pub throw_or :
      {B : Type 0} (s : fs.State) (b : Bool) (e : StorageException) (f : Unit {0} → M fs.State B)
      → (b ≡ false → Confined s (f tt s).1)
      → Confined s (after (throw_if b e s).0 (throw_if b e s).1 f).1
  throw_or = throw_if_rule Confined Confined-refl Confined-trans
