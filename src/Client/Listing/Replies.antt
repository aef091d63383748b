-- ===== src/Client/Listing/Replies.antt =====
-- A job that waits for a fixed number of replies: src/qt/internal/MultiItemJobImpl.cpp; and one that
-- gets a list at once: src/qt/internal/ItemListJobImpl.cpp.
use mathlib.Core.List.{append-nil, append_assoc}
use storage_framework.Base.{
  Option-cases, Bool-cases, inl, inr, subst, ℕ, suc, Bool, true, false, not, ◌&&◌, ◌≡◌, refl, ◌∙◌,
  ap, sym, Option, none, some, List, [], ◌∷◌, ◌++◌, if◌then◌else◌, length, is_some, arith,
}
use storage_framework.Errors.StorageError.{StorageError, no_error}
use storage_framework.Client.Listing.{
  loading, finished, failed, items_ready, status_changed, ListJob, fail, one_reply, one_error,
  first_error, made, last_error, list_reply, status_of, deliver_one,
}
use storage_framework.Client.Listing.Pages.{
  announced, delivered, announced-append, delivered-append,
}

pub data Answer (Md : Type 0) : Type 0 where
  replies : Bool → Md → Answer Md
  refuses : StorageError → Answer Md

module _ {Md : Type 0} (accept : Md → Option StorageError) where
  unfoldable pub take : ListJob Md → Answer Md → ListJob Md
  take j (replies runtime md) = one_reply accept j runtime md
  take j (refuses e) = one_error accept j e

  unfoldable pub take_all : ListJob Md → List (Answer Md) → ListJob Md
  take_all j [] = j
  take_all j (a ∷ xs) = take_all (take j a) xs

  -- An answer that gives an item.
  abbrev pub is_good : Answer Md → Bool
  is_good (replies runtime md) = runtime && not (is_some (accept md))
  is_good (refuses e) = false

  abbrev pub all_good : List (Answer Md) → Bool
  all_good [] = true
  all_good (a ∷ xs) = is_good a && all_good xs

  -- The items before the first answer that gives none.
  unfoldable pub before_failure : List (Answer Md) → List Md
  before_failure [] = []
  before_failure (replies runtime md ∷ xs) =
      if is_good (replies runtime md) then md ∷ before_failure xs else []
  before_failure (refuses e ∷ xs) = []

  -- A job that is no longer loading takes no notice.
  take_all_done :
      (j : ListJob Md) (xs : List (Answer Md)) → (j.status ≡ loading → ⊥) → take_all j xs ≡ j
  unfolding take_all take one_reply one_error
  take_all_done j [] d = refl
  take_all_done j (replies runtime md ∷ xs) d =
      ap (λ k. take_all k xs) (ground arith) ∙ take_all_done j xs d
  take_all_done j (refuses e ∷ xs) d = ap (λ k. take_all k xs) (ground arith) ∙ take_all_done j xs d

  -- What the job has done once all of its calls are answered.
  pub record IsTold (j : ListJob Md) (before : List Md) (xs : List (Answer Md)) : Type 0 where
    pub status : j.status ≡ (if all_good xs then finished else failed)
    pub told : announced j.effects ≡ j.status ∷ []
    pub items : delivered j.effects ≡ before ++ before_failure xs

  one_left :
      (j : ListJob Md) (a : Answer Md)
      → j.status ≡ loading
      → j.replies_remaining ≡ 1
      → announced j.effects ≡ []
      → IsTold (take j a) (delivered j.effects) (a ∷ [])
  unfolding take one_reply one_error fail deliver_one before_failure announced delivered
  one_left j (replies runtime md) l n s =
      grind (arith, announced-append, delivered-append, append-nil)
  one_left j (refuses e) l n s = grind (arith, announced-append, delivered-append, append-nil)

  take_failed :
      (j : ListJob Md) (a : Answer Md) (xs : List (Answer Md))
      → j.status ≡ loading
      → announced j.effects ≡ []
      → is_good a ≡ false
      → IsTold (take j a) (delivered j.effects) (a ∷ xs)
  unfolding take one_reply one_error fail before_failure announced delivered
  take_failed j (replies runtime md) xs l s g =
      grind (arith, announced-append, delivered-append, append-nil)
  take_failed j (refuses e) xs l s g = grind (arith, announced-append, delivered-append, append-nil)

  stops :
      (j : ListJob Md) (a : Answer Md) (xs : List (Answer Md))
      → j.status ≡ loading
      → announced j.effects ≡ []
      → is_good a ≡ false
      → IsTold (take_all (take j a) xs) (delivered j.effects) (a ∷ xs)
  stops j a xs l s bad =
      let told : IsTold (take j a) (delivered j.effects) (a ∷ xs) = take_failed j a xs l s bad in
      subst (λ k. IsTold k (delivered j.effects) (a ∷ xs))
        (sym (take_all_done (take j a) xs (λ e. ground (arith, told.status)))) told

  -- A job that goes on.
  abbrev GoesOn : ListJob Md → ListJob Md → Md → ℕ → Type 0
  GoesOn j k md n =
      (k.status ≡ loading)
      × ((k.replies_remaining ≡ n)
          × ((announced k.effects ≡ []) × (delivered k.effects ≡ delivered j.effects ++ (md ∷ []))))

  take_good :
      (j : ListJob Md) (runtime : Bool) (md : Md) (n : ℕ)
      → j.status ≡ loading
      → announced j.effects ≡ []
      → j.replies_remaining ≡ suc (suc n)
      → is_good (replies runtime md) ≡ true
      → GoesOn j (take j (replies runtime md)) md (suc n)
  unfolding take one_reply fail deliver_one announced delivered
  take_good j runtime md n l s r g = grind (arith, announced-append, delivered-append, append-nil)

  take-IsTold :
      (j k : ListJob Md) (runtime : Bool) (md : Md) (xs : List (Answer Md)) (before : List Md)
      → is_good (replies runtime md) ≡ true
      → delivered j.effects ≡ before ++ (md ∷ [])
      → IsTold k (delivered j.effects) xs
      → IsTold k before (replies runtime md ∷ xs)
  unfolding before_failure
  take-IsTold j k runtime md xs before g d i = record {
    status = ground (arith, i.status);
    told = i.told;
    items = ground (arith, i.items, append_assoc before (md ∷ []) (before_failure xs));
  }

  -- A job that is loading, has announced nothing and gets as many answers as it still waits for, at
  -- least one: it finishes if each of them gives an item that is accepted, and fails if not; it announces
  -- its status once; and it delivers the items of the answers before the first that gives none.
  pub take_all-IsTold :
      (j : ListJob Md) (a : Answer Md) (xs : List (Answer Md))
      → j.status ≡ loading
      → announced j.effects ≡ []
      → j.replies_remaining ≡ suc (length xs)
      → IsTold (take_all j (a ∷ xs)) (delivered j.effects) (a ∷ xs)
  unfolding take_all
  take_all-IsTold j a [] l s n = one_left j a l n s
  take_all-IsTold j (replies runtime md) (b ∷ ys) l s n =
      elim (Bool-cases (is_good (replies runtime md))) [
        | inl good ↦
            let k : ListJob Md = take j (replies runtime md) in
            let (l', (n', (s', d'))) = take_good j runtime md (length ys) l s n good in
            take-IsTold k (take_all k (b ∷ ys)) runtime md (b ∷ ys) (delivered j.effects) good d'
              (take_all-IsTold k b ys l' s' n')
        | inr bad ↦ stops j (replies runtime md) (b ∷ ys) l s bad
      ]
  take_all-IsTold j (refuses e) (b ∷ ys) l s n = stops j (refuses e) (b ∷ ys) l s refl

  made-accepted : (mds : List Md) → first_error accept (made accept mds) ≡ none
  unfolding first_error made
  made-accepted [] = refl
  made-accepted (md ∷ mds) = ground (arith, made-accepted mds)

  status_of-other : (e : StorageError) → (e.type ≡ no_error → ⊥) → status_of accept e.type ≡ failed
  unfolding status_of
  status_of-other e h = ground arith

  module _
      (thrown : (md : Md) (e : StorageError) → accept md ≡ some e → e.type ≡ no_error → ⊥) where
    status_of-last_error :
        (e : StorageError) (mds : List Md)
        → status_of accept (last_error accept e mds).type
          ≡ (if is_some (first_error accept mds) then failed else status_of accept e.type)
    unfolding first_error last_error
    status_of-last_error e [] = refl
    status_of-last_error e (md ∷ mds) = elim (Option-cases (accept md)) [
      | inl good ↦ ground (arith, good, status_of-last_error e mds)
      | inr (x, bad) ↦
          ground (arith, bad, status_of-last_error x mds, status_of-other x (thrown md x bad))
    ]

    -- If no error that `validate_` or `make_item` throws has the type `NoError`, a job that has no error
    -- and gets its list under a valid runtime delivers exactly the items that are accepted, in one
    -- signal, and then announces its status once: `Finished` if all were accepted, and else `Error`.
    pub list_reply-effects :
        (j : ListJob Md) (mds : List Md)
        → j.error.type ≡ no_error
        → ((list_reply accept j true mds).status
            ≡ (if is_some (first_error accept mds) then failed else finished))
          × (((list_reply accept j true mds).effects
                ≡ j.effects
                  ++ (items_ready (made accept mds)
                      ∷ status_changed (list_reply accept j true mds).status
                      ∷ []))
              × (first_error accept (made accept mds) ≡ none))
    unfolding list_reply status_of
    list_reply-effects j mds h =
        (ground (arith, status_of-last_error j.error mds), (refl, made-accepted mds))
