-- ===== src/Client/Items/Answers.antt =====
-- What a provider's answer makes of a request on an item: src/qt/internal/ItemImpl.cpp, ItemJobImpl.cpp.
use storage_framework.Base.{
  Bool, true, false, not, ◌&&◌, ◌≡◌, ◌↔◌, refl, Option, none, some, [], ◌∷◌, arith,
}
use storage_framework.Base.Text.{Text}
use storage_framework.Base.Int.{ℤ, pos, negsuc}
use storage_framework.Base.Common.{ItemType}
use storage_framework.Errors.StorageError.{StorageError}
use storage_framework.Client.Validate.{ItemMetadata, DateTime, is_file, is_root, validate}
use storage_framework.Client.Validate.Accepts.{IsWellFormed, validate-IsWellFormed}
use storage_framework.Client.Listing.{finished}
use storage_framework.Client.Accounts.{
  Account, Runtime, Started, waits_for, pages, accepts_all, unless_gone,
}
use storage_framework.Client.Items.{
  Item, ItemRequest, for_parents, for_list, for_copy, for_move, for_delete, for_upload,
  for_download, for_lookup, for_new_folder, for_new_file, begin_request, parents, list, copy, move,
  delete_item, create_uploader, create_downloader, lookup, create_folder, create_file, not_file,
  only_file, not_root, same_kind, moved_item,
}
use storage_framework.Client.Items.Calls.{reaches}
use storage_framework.Client.Jobs.{
  ItemJob, start_item_job, item_job_reply, item_job_answer, item_job_error, make_item,
}

-- The check of an answer.
unfoldable pub check_of : Started → ItemMetadata → Option StorageError
check_of (waits_for calls v) = v
check_of (pages call v) = v
check_of _ = accepts_all

same : Bool → Bool → Bool
same true b = b
same false b = not b

-- The kind of item that a request is answered with.
unfoldable pub promised : ItemRequest → Item → ItemType → Bool
unfolding same
promised (for_parents keys) i t = not (is_file t)
promised (for_list keys) i t = not (is_root t)
promised (for_copy p n keys) i t = same (is_file i.md.type) (is_file t)
promised (for_move p n keys) i t = same (is_file i.md.type) (is_file t) && not (is_root t)
promised for_delete i t = true
promised (for_upload policy size keys) i t = is_file t
promised (for_download policy) i t = true
promised (for_lookup n keys) i t = true
promised (for_new_folder n keys) i t = not (is_file t)
promised (for_new_file n policy size s keys) i t = is_file t

check_of-promised :
    (q : ItemRequest) (i : Item) (runtime : Option Runtime) (md : ItemMetadata)
    → reaches (begin_request q i runtime) ≡ true
    → (check_of (begin_request q i runtime) md ≡ none) ↔ (promised q i md.type ≡ true)
unfolding begin_request reaches check_of promised accepts_all unless_gone parents list copy move
    delete_item create_uploader create_downloader lookup create_folder create_file not_file
    only_file not_root same_kind moved_item
check_of-promised (for_parents keys) i runtime md h = ground arith
check_of-promised (for_list keys) i runtime md h = ground arith
check_of-promised (for_copy p n keys) i runtime md h = ground arith
check_of-promised (for_move p n keys) i runtime md h = ground arith
check_of-promised for_delete i runtime md h = ground arith
check_of-promised (for_upload policy (pos n) keys) i runtime md h = ground arith
check_of-promised (for_upload policy (negsuc n) keys) i runtime md h = ground arith
check_of-promised (for_download policy) i runtime md h = ground arith
check_of-promised (for_lookup n keys) i runtime md h = ground arith
check_of-promised (for_new_folder n keys) i runtime md h = ground arith
check_of-promised (for_new_file n policy (pos m) t keys) i runtime md h = ground arith
check_of-promised (for_new_file n policy (negsuc m) t keys) i runtime md h = ground arith

-- The requests that an ItemJobImpl serves.
abbrev pub is_item_job : ItemRequest → Bool
is_item_job (for_copy p n keys) = true
is_item_job (for_move p n keys) = true
is_item_job (for_new_folder n keys) = true
is_item_job _ = false

module _ (parse_date : Text → DateTime) (number : ℤ → Text) where
  Settles : Option StorageError → Option StorageError → Item → ItemJob → Type 0
  Settles r v item j =
      ((j.status ≡ finished) ↔ ((r ≡ none) × (v ≡ none)))
      × (j.announced ≡ j.status ∷ [])
      × (j.status ≡ finished → j.item ≡ item)

  item_job_answer-Settles :
      (r v : Option StorageError) (item : Item) (method : Text) (account : Account)
      → Settles r v item (
          item_job_answer parse_date number r
            (v, item)
            (start_item_job parse_date number method account))
  unfolding item_job_answer item_job_error start_item_job Settles
  item_job_answer-Settles none none item method account =
      ((λ h. (refl, refl), λ h. refl), refl, λ h. refl)
  item_job_answer-Settles none (some e) item method account =
      ((λ h. absurd (cc), λ h. absurd (cc)), refl, λ h. absurd (cc))
  item_job_answer-Settles (some e) v item method account =
      ((λ h. absurd (cc), λ h. absurd (cc)), refl, λ h. absurd (cc))

  -- The job of a request on an item, after its answer.
  abbrev pub answered : ItemRequest → Item → Option Runtime → Bool → ItemMetadata → Text → ItemJob
  answered q i runtime alive md method =
      item_job_reply parse_date number (check_of (begin_request q i runtime)) alive md
        (start_item_job parse_date number method i.account)

  -- When the provider answers a copy, a move or a request for a new folder that has reached it, with an
  -- item, the job finishes exactly if the runtime is still there, the item's metadata is well-formed and
  -- the item is of the kind that the request is for: a copy is a file if and only if its source is, a
  -- moved item is not a root besides, a new folder is no file. The job then has that item, valid and of
  -- the same account. Either way it announces its status, once.
  pub item_job_reply-answered :
      (q : ItemRequest) (i : Item) (runtime : Option Runtime) (alive : Bool) (md : ItemMetadata)
      (method : Text)
      → is_item_job q ≡ true
      → reaches (begin_request q i runtime) ≡ true
      → (((answered q i runtime alive md method).status ≡ finished)
          ↔ ((alive ≡ true) × (promised q i md.type ≡ true) × IsWellFormed parse_date number md))
        × ((answered q i runtime alive md method).announced
            ≡ (answered q i runtime alive md method).status ∷ [])
        × ((answered q i runtime alive md method).status ≡ finished
            → (answered q i runtime alive md method).item
              ≡ record { is_valid = true; md = md; account = i.account })
  unfolding item_job_reply item_job_error start_item_job make_item Settles
  item_job_reply-answered q i runtime false md method j h =
      ((λ k. absurd (cc), λ k. absurd (cc)), refl, λ k. absurd (cc))
  item_job_reply-answered q i runtime true md method j h =
      let c = check_of-promised q i runtime md h in
      let w = validate-IsWellFormed parse_date number method md in
      let (settled, once, item) =
        item_job_answer-Settles (check_of (begin_request q i runtime) md)
          (validate parse_date number method md)
          (record { is_valid = true; md = md; account = i.account }) method i.account in
      (
        (
          λ k. (refl, c.0 (settled.0 k).0, w.0 (settled.0 k).1),
          λ (a, p, f). settled.1 (c.1 p, w.1 f),
        ),
        once,
        item,
      )
