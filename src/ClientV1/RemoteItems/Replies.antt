-- ===== src/ClientV1/RemoteItems/Replies.antt =====
-- What the handlers of src/qt/client/internal/remote_client let through: ItemImpl.cpp, FolderImpl.cpp and
-- RootImpl.cpp.
use storage_framework.Base.{
  Bool, true, false, not, is_empty, ◌≡◌, refl, Option, none, some, List, [], ◌∷◌, ◌++◌,
  if◌then◌else◌, arith, ap, ◌∙◌, ◌⊎◌, inl, inr, sym, subst,
}
use storage_framework.Base.Text.{Text, text}
use storage_framework.Base.Int.{ℤ}
use storage_framework.Base.Common.{ItemType, folder}
use storage_framework.Client.Validate.{ItemMetadata, DateTime, is_root}
use storage_framework.ClientV1.Exceptions.{StorageException}
use storage_framework.ClientV1.Future.{
  Report, exception, result, finished, make_exceptional_future, make_ready_future,
}
use storage_framework.ClientV1.RemoteItems.Validate.{validate}
use storage_framework.ClientV1.RemoteItems.{
  RemoteItem, Arrival, fails, arrives, handle, result_unless, first_of, make_item, copied, moved,
  folder_created, got, is_folder, root_gone, take_items, listed, listed_page,
}
use mathlib.Core.List.{append-nil, append_assoc}

one_more :
    {A : Type 0} (b : Bool) (x : A) (xs ys : List A)
    → (if b then xs else xs ++ x ∷ []) ++ ys ≡ xs ++ (if b then ys else x ∷ ys)
one_more true x xs ys = refl
one_more false x xs ys = append_assoc xs (x ∷ []) ys

-- The calls that give one item.
pub data ItemCall : Type 0 where
  copy_call move_call create_call get_call : ItemCall

abbrev pub method_of : ItemCall → Text
method_of copy_call = text "Item::copy()"
method_of move_call = text "Item::move()"
method_of create_call = text "Folder::create_folder()"
method_of get_call = text "Root::get()"

-- The types that a call can give.
abbrev pub gives : ItemCall → ItemType → Bool
gives copy_call type = not (is_root type)
gives move_call type = not (is_root type)
gives create_call folder = true
gives create_call _ = false
gives get_call type = true

first_of-none : (e f : Option StorageException) → first_of e f ≡ none → (e ≡ none) × (f ≡ none)
first_of-none none f h = (refl, h)
first_of-none (some x) f h = absurd (cc)

if_some-none :
    (b : Bool) (e : StorageException)
    → ◌≡◌ {A = Option StorageException} (if b then some e else none) none
    → b ≡ false
if_some-none true e h = absurd (cc)
if_some-none false e h = refl

if_none-none :
    (b : Bool) (e : StorageException)
    → ◌≡◌ {A = Option StorageException} (if b then none else some e) none
    → b ≡ true
if_none-none true e h = refl
if_none-none false e h = absurd (cc)

module _ (parse_date : Text → DateTime) (number : ℤ → Text) where
  abbrev pub reply_to : ItemCall → RemoteItem → Arrival ItemMetadata → List (Report RemoteItem)
  reply_to copy_call = copied parse_date number
  reply_to move_call = moved parse_date number
  reply_to create_call = folder_created parse_date number
  reply_to get_call = got parse_date number

  -- What makes a reply one that gives its item.
  pub record IsAccepted (c : ItemCall) (this : RemoteItem) (reply : Arrival ItemMetadata)
      (x : RemoteItem) : Type 0 where
    pub md : ItemMetadata
    pub arrived : reply ≡ arrives md
    pub alive : this.alive ≡ true
    pub valid : validate parse_date (method_of c) md ≡ none
    pub given : gives c md.type ≡ true
    pub made : x ≡ make_item md

  -- One outcome: an item that is accepted, or an exception.
  abbrev pub HasOutcome :
      ItemCall → RemoteItem → Arrival ItemMetadata → List (Report RemoteItem) → Type 0
  HasOutcome c this reply rs =
      ((x : RemoteItem) × (rs ≡ result x ∷ finished ∷ []) × IsAccepted c this reply x)
      ⊎ ((e : StorageException) × (rs ≡ exception e ∷ finished ∷ []))

  through :
      (c : ItemCall) (this : RemoteItem) (md : ItemMetadata) (e : Option StorageException)
      → (e ≡ none → IsAccepted c this (arrives md) (make_item md))
      → HasOutcome c this (arrives md) (result_unless e (make_item md))
  unfolding result_unless make_exceptional_future make_ready_future
  through c this md none k = inl (make_item md, refl, k refl)
  through c this md (some x) k = inr (x, refl)

  checked :
      (c : ItemCall) (this : RemoteItem) (md : ItemMetadata) (method : Text)
      (type : Option StorageException)
      → method ≡ method_of c
      → (type ≡ none → gives c md.type ≡ true)
      → HasOutcome c this (arrives md) (
          result_unless
            (first_of
              (root_gone parse_date number method this)
              (first_of (validate parse_date method md) type))
            (make_item md))
  checked c this md method type m g = through c this md _ (λ h.
      let (here, rest) = first_of-none (root_gone parse_date number method this) _ h in
      let (valid, fits) = first_of-none (validate parse_date method md) type rest in
      record {
        md = md;
        arrived = refl;
        alive = if_none-none this.alive _ here;
        valid = subst (λ t. validate parse_date t md ≡ none) m valid;
        given = g fits;
        made = refl;
      })

  first_of-right : (e : Option StorageException) → first_of e none ≡ e
  first_of-right none = refl
  first_of-right (some x) = refl

  -- A copy, a move, a new folder or a lookup by identity gives an item only if the reply is no error, the
  -- runtime is still there, the metadata are valid and their type is one that the call can give, and the
  -- item is then made of these metadata. Any other reply makes the future ready with one exception.
  pub reply_to-HasOutcome :
      (c : ItemCall) (this : RemoteItem) (reply : Arrival ItemMetadata)
      → HasOutcome c this reply (reply_to c this reply)
  unfolding copied moved folder_created got handle make_exceptional_future
  reply_to-HasOutcome copy_call this (fails e) = inr (e, refl)
  reply_to-HasOutcome move_call this (fails e) = inr (e, refl)
  reply_to-HasOutcome create_call this (fails e) = inr (e, refl)
  reply_to-HasOutcome get_call this (fails e) = inr (e, refl)
  reply_to-HasOutcome copy_call this (arrives md) =
      checked copy_call this md _ _ refl (λ h. ap not (if_some-none (is_root md.type) _ h))
  reply_to-HasOutcome move_call this (arrives md) =
      checked move_call this md _ _ refl (λ h. ap not (if_some-none (is_root md.type) _ h))
  reply_to-HasOutcome create_call this (arrives md) =
      checked create_call this md _ _ refl
        (λ h. if_none-none (is_folder parse_date number md.type) _ h)
  reply_to-HasOutcome get_call this (arrives md) =
      subst
        (λ e. HasOutcome get_call this (arrives md) (
          result_unless (first_of (root_gone parse_date number (text "Root::get()") this) e)
            (make_item md)))
        (first_of-right (validate parse_date (text "Root::get()") md))
        (checked get_call this md (text "Root::get()") none refl (λ _. refl))

  -- The items of a page that are no roots.
  abbrev pub items_of : List ItemMetadata → List RemoteItem
  items_of [] = []
  items_of (md ∷ mds) = if is_root md.type then items_of mds else make_item md ∷ items_of mds

  abbrev pub AllValid : Text → List ItemMetadata → Type 0
  AllValid method [] = Unit
  AllValid method (md ∷ mds) = (validate parse_date method md ≡ none) × AllValid method mds

  take_items-append :
      (method : Text) (mds : List ItemMetadata) (items : List RemoteItem)
      → (take_items parse_date number method mds items).0 ≡ none
      → ((take_items parse_date number method mds items).1 ≡ items ++ items_of mds)
        × AllValid method mds
  unfolding take_items
  take_items-append method [] items e = (sym (append-nil items), tt)
  take_items-append method (md ∷ mds) items e =
      by_validity (validate parse_date method md) refl (take_items-append method mds more) e
    where
      more : List RemoteItem
      more = if is_root md.type then items else items ++ make_item md ∷ []

      rest : Option StorageException × List RemoteItem
      rest = take_items parse_date number method mds more

      by_validity :
          (v : Option StorageException)
          → validate parse_date method md ≡ v
          → (rest.0 ≡ none → (rest.1 ≡ more ++ items_of mds) × AllValid method mds)
          → (elim v as (λ _. Option StorageException × List RemoteItem) [
            | some x ↦ (some x, items)
            | none ↦ rest
          ]).0
            ≡ none
          → ((elim v as (λ _. Option StorageException × List RemoteItem) [
            | some x ↦ (some x, items)
            | none ↦ rest
          ]).1
              ≡ items ++ items_of (md ∷ mds))
            × AllValid method (md ∷ mds)
      by_validity (some x) k ih h = absurd (cc)
      by_validity none k ih h =
          ((ih h).0 ∙ one_more (is_root md.type) (make_item md) items (items_of mds), (k, (ih h).1))

  gone_or :
      (e : Option StorageException) (items : List RemoteItem) (rs : List (Report (List RemoteItem)))
      (next : Option Text) (page : List (Report (List RemoteItem)) × Option Text)
      → (elim e as (λ _. List (Report (List RemoteItem)) × Option Text) [
        | some x ↦ (exception x ∷ finished ∷ [], none)
        | none ↦ page
      ])
        ≡ (result items ∷ rs, next)
      → (e ≡ none) × (page ≡ (result items ∷ rs, next))
  gone_or none items rs next page h = (refl, h)
  gone_or (some x) items rs next page h = absurd (ground arith)

  abbrev Page : Type 0
  Page = List (Report (List RemoteItem)) × Option Text

  page_of :
      (token : Text) (taken items : List RemoteItem) (rs : List (Report (List RemoteItem)))
      (next : Option Text)
      → ◌≡◌ {A = Page}
          (if is_empty token
            then (result taken ∷ finished ∷ [], none)
            else (result taken ∷ [], some token))
          (result items ∷ rs, next)
      → (items ≡ taken) × (next ≡ (if is_empty token then none else some token))
  page_of token taken items rs next h = ground arith

  -- A page of a listing that gives a result gives the items of its metadata in their order, the roots left
  -- out, all of them valid, and the next page is asked for by the token of this one unless that is empty.
  pub listed-result :
      (this : RemoteItem) (mds : List ItemMetadata) (token : Text) (items : List RemoteItem)
      (rs : List (Report (List RemoteItem))) (next : Option Text)
      → listed parse_date number this (arrives (mds, token)) ≡ (result items ∷ rs, next)
      → (items ≡ items_of mds)
        × AllValid (text "Folder::list()") mds
        × (next ≡ (if is_empty token then none else some token))
  unfolding listed listed_page make_exceptional_future
  listed-result this mds token items rs next h =
      let r = take_items parse_date number (text "Folder::list()") mds [] in
      let (_, page) =
        gone_or (root_gone parse_date number (text "Folder::list()") this) items rs next _ h in
      let (all, one) = gone_or r.0 items rs next _ page in
      let (same, token') = page_of token r.1 items rs next one in
      let (kept, valid) = take_items-append (text "Folder::list()") mds [] all in
      (same ∙ kept, valid, token')
