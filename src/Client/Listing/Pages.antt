-- ===== src/Client/Listing/Pages.antt =====
-- A listing by pages: every order of answers, and what it delivers. src/qt/internal/MultiItemListJobImpl.cpp.
use mathlib.Core.List.{append-nil, append_assoc}
use mathlib.Core.Option.{some-injective}
use storage_framework.Base.{
  ℕ, suc, ◌+◌, Bool, true, false, ◌≡◌, refl, ◌∙◌, ap, sym, inl, inr, subst, Option, none, some,
  List, [], ◌∷◌, ◌++◌, if◌then◌else◌, ltb, is_empty, is_some, Option-cases, arith,
}
use storage_framework.Base.Text.{Text}
use storage_framework.Errors.StorageError.{StorageError}
use storage_framework.Client.Listing.{
  Status, loading, finished, Effect, items_ready, status_changed, fetch_next, ListJob, is_loading,
  start, fail, first_error, deliver_page, page_reply, page_error,
}

module _ {Md : Type 0} where
  -- The calls for a next page, the statuses announced and the items delivered, in order.
  unfoldable pub fetches : List (Effect Md) → ℕ
  fetches [] = 0
  fetches (fetch_next t ∷ es) = suc (fetches es)
  fetches (items_ready mds ∷ es) = fetches es
  fetches (status_changed s ∷ es) = fetches es

  unfoldable pub announced : List (Effect Md) → List Status
  announced [] = []
  announced (status_changed s ∷ es) = s ∷ announced es
  announced (items_ready mds ∷ es) = announced es
  announced (fetch_next t ∷ es) = announced es

  unfoldable pub delivered : List (Effect Md) → List Md
  delivered [] = []
  delivered (items_ready mds ∷ es) = mds ++ delivered es
  delivered (status_changed s ∷ es) = delivered es
  delivered (fetch_next t ∷ es) = delivered es

  pub fetches-append : (xs ys : List (Effect Md)) → fetches (xs ++ ys) ≡ fetches xs + fetches ys
  unfolding fetches
  fetches-append [] ys = omega arith
  fetches-append (fetch_next t ∷ xs) ys = omega (arith, fetches-append xs ys)
  fetches-append (items_ready mds ∷ xs) ys = fetches-append xs ys
  fetches-append (status_changed s ∷ xs) ys = fetches-append xs ys

  pub announced-append :
      (xs ys : List (Effect Md)) → announced (xs ++ ys) ≡ announced xs ++ announced ys
  unfolding announced
  announced-append [] ys = refl
  announced-append (fetch_next t ∷ xs) ys = announced-append xs ys
  announced-append (items_ready mds ∷ xs) ys = announced-append xs ys
  announced-append (status_changed s ∷ xs) ys = ap (λ es. s ∷ es) (announced-append xs ys)

  pub delivered-append :
      (xs ys : List (Effect Md)) → delivered (xs ++ ys) ≡ delivered xs ++ delivered ys
  unfolding delivered
  delivered-append [] ys = refl
  delivered-append (fetch_next t ∷ xs) ys = delivered-append xs ys
  delivered-append (items_ready mds ∷ xs) ys =
      ap (λ es. mds ++ es) (delivered-append xs ys)
      ∙ sym (append_assoc mds (delivered xs) (delivered ys))
  delivered-append (status_changed s ∷ xs) ys = delivered-append xs ys

-- The answer to a call for a page.
pub data Event (Md : Type 0) : Type 0 where
  replies : Bool → List Md → Text → Event Md
  refuses : StorageError → Event Md

-- A job, and how many of its calls have been answered: the call that made it and those for more.
pub record Session (Md : Type 0) : Type 0 where
  pub job : ListJob Md
  pub answered : ℕ

module _ {Md : Type 0} (accept : Md → Option StorageError) where
  first_error-append :
      (xs ys : List Md)
      → first_error accept xs ≡ none
      → first_error accept ys ≡ none
      → first_error accept (xs ++ ys) ≡ none
  unfolding first_error
  first_error-append [] ys h k = k
  first_error-append (x ∷ xs) ys h k = ground (arith, first_error-append xs ys)

  unfoldable pub is_open : Session Md → Bool
  is_open s = ltb s.answered (suc (fetches s.job.effects))

  answer : Session Md → Option (ListJob Md) → Option (Session Md)
  answer s none = none
  answer s (some j) = some (record { job = j; answered = suc s.answered })

  -- `none` if no call is open, or if an assertion fails.
  unfoldable pub step : Session Md → Event Md → Option (Session Md)
  unfolding answer
  step s (replies runtime mds token) =
      if is_open s then answer s (some (page_reply accept s.job runtime mds token)) else none
  step s (refuses e) = if is_open s then answer s (page_error accept true s.job e) else none

  unfoldable pub run : Option (Session Md) → List (Event Md) → Option (Session Md)
  run s [] = s
  run none (e ∷ es) = run none es
  run (some s) (e ∷ es) = run (step s e) es

  pub record IsSound (s : Session Md) : Type 0 where
    pub one_call :
        s.answered + (if is_loading s.job.status then 1 else 0) ≡ suc (fetches s.job.effects)
    pub announces :
        announced s.job.effects ≡ (if is_loading s.job.status then [] else s.job.status ∷ [])
    pub accepted : first_error accept (delivered s.job.effects) ≡ none

  page_reply-IsSound :
      (s t : Session Md) (runtime : Bool) (mds : List Md) (token : Text)
      → IsSound s
      → step s (replies runtime mds token) ≡ some t
      → IsSound t
  unfolding step page_reply fail deliver_page is_open announced delivered fetches
  page_reply-IsSound s t runtime mds token i h =
      grind
        (arith, fetches-append, announced-append, delivered-append, append-nil, first_error-append)

  page_error-IsSound :
      (s t : Session Md) (e : StorageError) → IsSound s → step s (refuses e) ≡ some t → IsSound t
  unfolding step page_error fail is_open announced delivered fetches
  page_error-IsSound s t e i h =
      grind (arith, fetches-append, announced-append, delivered-append, append-nil)

  step-IsSound : (s t : Session Md) (e : Event Md) → IsSound s → step s e ≡ some t → IsSound t
  step-IsSound s t (replies runtime mds token) i h = page_reply-IsSound s t runtime mds token i h
  step-IsSound s t (refuses e) i h = page_error-IsSound s t e i h

  run-none : (es : List (Event Md)) → run none es ≡ none
  unfolding run
  run-none [] = refl
  run-none (e ∷ es) = run-none es

  run-IsSound :
      (s t : Session Md) (es : List (Event Md)) → IsSound s → run (some s) es ≡ some t → IsSound t
  unfolding run
  run-IsSound s t [] i h = subst IsSound (some-injective s t h) i
  run-IsSound s t (e ∷ es) i h = elim (Option-cases (step s e)) [
    | inl stuck ↦ cc (run-none es, stuck)
    | inr (u, next) ↦ run-IsSound u t es (step-IsSound s u e i next) (rw (← next) h)
  ]

  abbrev pub listing : Text → Session Md
  listing method = record { job = start accept method 0; answered = 0 }

  -- In every state that a listing reaches by answers of any kind: exactly one call to the provider is
  -- open if it is loading, and none if not; it has announced its status once if it is not loading,
  -- and nothing if it is; and all the items that it has delivered were accepted.
  pub run-listing-IsSound :
      (method : Text) (t : Session Md) (es : List (Event Md))
      → run (some (listing method)) es ≡ some t
      → IsSound t
  unfolding start announced delivered fetches first_error
  run-listing-IsSound method t es h =
      run-IsSound (listing method) t es
        (record { one_call = refl; announces = refl; accepted = refl }) h

  -- In a sound state an open call can be answered, and with an error too: the assertion of
  -- `process_error` holds.
  pub step-answer :
      (s : Session Md) (e : Event Md) → IsSound s → is_open s ≡ true → is_some (step s e) ≡ true
  unfolding step is_open page_error
  step-answer s (replies runtime mds token) i o = ground arith
  step-answer s (refuses e) i o = ground (arith, i.one_call)

  -- The pages of one listing: each but the last has a token, and their items are accepted.
  abbrev pub IsPaged : List (List Md × Text) → Type 0
  IsPaged [] = ⊥
  IsPaged ((mds, token) ∷ []) = (first_error accept mds ≡ none) × (is_empty token ≡ true)
  IsPaged ((mds, token) ∷ p ∷ ps) =
      (first_error accept mds ≡ none) × ((is_empty token ≡ false) × IsPaged (p ∷ ps))

  unfoldable pub read_pages : ListJob Md → List (List Md × Text) → ListJob Md
  read_pages j [] = j
  read_pages j ((mds, token) ∷ ps) = read_pages (page_reply accept j true mds token) ps

  abbrev pub items_of : List (List Md × Text) → List Md
  items_of [] = []
  items_of ((mds, token) ∷ ps) = mds ++ items_of ps

  page_reply-delivered :
      (j : ListJob Md) (mds : List Md) (token : Text)
      → j.status ≡ loading
      → first_error accept mds ≡ none
      → is_empty token ≡ false
      → delivered (page_reply accept j true mds token).effects ≡ delivered j.effects ++ mds
  unfolding page_reply deliver_page delivered
  page_reply-delivered j mds token l a n = grind (arith, delivered-append, append-nil)

  -- A listing that is loading and gets the pages of a listing, each but the last with a token and
  -- with items that are accepted, finishes, and has delivered the items of all pages in order.
  pub read_pages-delivered :
      (j : ListJob Md) (ps : List (List Md × Text))
      → j.status ≡ loading
      → IsPaged ps
      → ((read_pages j ps).status ≡ finished)
        × (delivered (read_pages j ps).effects ≡ delivered j.effects ++ items_of ps)
  unfolding read_pages page_reply deliver_page delivered
  read_pages-delivered j [] l p = absurd p
  read_pages-delivered j ((mds, token) ∷ []) l (a, n) = grind (arith, delivered-append, append-nil)
  read_pages-delivered j ((mds, token) ∷ p ∷ ps) l (a, (n, q)) =
      let k : ListJob Md = page_reply accept j true mds token in
      let (f, d) = read_pages-delivered k (p ∷ ps) (ground arith) q in
      (
        f,
        d
            ∙ ap (λ xs. xs ++ items_of (p ∷ ps)) (page_reply-delivered j mds token l a n)
            ∙ append_assoc (delivered j.effects) mds (items_of (p ∷ ps)),
      )
