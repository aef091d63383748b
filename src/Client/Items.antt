-- ===== src/Client/Items.antt =====
-- src/qt/internal/ItemImpl.cpp: what each method of an item starts. The account of an invalid item is
-- the invalid account.
pub mod Order
pub mod Calls
pub mod Answers
use storage_framework.Base.{
  ℕ, Bool, true, false, not, ◌&&◌, ◌||◌, Option, none, some, List, [], ◌∷◌, ◌++◌, map,
  if◌then◌else◌, is_empty,
}
use storage_framework.Base.Text.{Text, text, text_eq, text_lt}
use storage_framework.Base.Int.{ℤ, pos, negsuc}
use storage_framework.Base.Common.{ItemType, file, folder, root}
use storage_framework.Errors.StorageError.{
  StorageError, with_message, local_comms_error, logic_error, invalid_argument, permission_denied,
}
use storage_framework.Client.Validate.{ItemMetadata, is_file, is_root}
use storage_framework.Client.Accounts.{
  Account, no_account, account_eq, account_lt, account_gt, account_hash, Runtime, Call,
  metadata_call, list_call, lookup_call, create_folder_call, copy_call, move_call, delete_call,
  update_call, download_call, create_file_call, Started, refused, empty_job, waits_for, pages,
  aborted, accepts_all, unless_gone,
}

pub data ConflictPolicy : Type 0 where
  error_if_conflict ignore_conflict : ConflictPolicy

pub record Item : Type 0 where
  pub is_valid : Bool
  pub md : ItemMetadata
  pub account : Account

unfoldable pub item_id : Item → Text
item_id i = if i.is_valid then i.md.item_id else []

unfoldable pub account_of : Item → Account
account_of i = if i.is_valid then i.account else no_account

unfoldable pub parent_ids : Item → List Text
parent_ids i = if not i.is_valid || is_root i.md.type then [] else i.md.parent_ids

provider_error : Text → ItemMetadata → Text → Option StorageError
provider_error method md what = some (
    with_message local_comms_error
      (method ++ (what ++ (text " (id = " ++ (md.item_id ++ text ")")))))

unfoldable pub not_file : Text → Text → ItemMetadata → Option StorageError
unfolding provider_error
not_file method what md = if is_file md.type then provider_error method md what else none

unfoldable pub only_file : Text → ItemMetadata → Option StorageError
unfolding provider_error
only_file method md =
    if not (is_file md.type)
    then provider_error method md (text ": impossible folder item returned by provider")
    else none

unfoldable pub not_root : Text → ItemMetadata → Option StorageError
unfolding provider_error
not_root method md =
    if is_root md.type
    then provider_error method md (text ": impossible root item returned by provider")
    else none

unfoldable pub same_kind : Text → ItemMetadata → ItemMetadata → Option StorageError
same_kind prefix source md =
    if (is_file source.type && not (is_file md.type))
      || (not (is_file source.type) && is_file md.type)
    then some (
        with_message local_comms_error (
          prefix
          ++ (text "provider error: source and target item type differ (source id = "
              ++ (source.item_id ++ (text ", target id = " ++ (md.item_id ++ text ")"))))))
    else none

unfoldable pub moved_item : Text → ItemMetadata → ItemMetadata → Option StorageError
unfolding not_root same_kind
moved_item method source md = elim (not_root method md) [
  | some e ↦ some e
  | none ↦ same_kind (method ++ text ": ") source md
]

refuse_if : Bool → Started → Started → Started
refuse_if b e job = if b then e else job

illogical : Text → Text → Started
illogical method what = refused (with_message logic_error (method ++ what))

ill_argued : Text → Text → Started
ill_argued method what = refused (with_message invalid_argument (method ++ what))

is_negative : ℤ → Bool
is_negative (pos n) = false
is_negative (negsuc n) = true

-- The ETag that a policy asks the provider to check.
unfoldable pub etag_for : ConflictPolicy → ItemMetadata → Text
etag_for ignore_conflict md = []
etag_for error_if_conflict md = md.etag

module _ (i : Item) (runtime : Option Runtime) where
  check_invalid_or_destroyed : Text → Started → Started
  check_invalid_or_destroyed method job = unless_gone method (text "item") i.is_valid runtime job

  -- A valid item has a parent unless it is a root, by its validation.
  unfoldable pub parents : List Text → Started
  unfolding check_invalid_or_destroyed not_file refuse_if
  parents keys = check_invalid_or_destroyed (text "Item::parents()") (
      refuse_if (is_root i.md.type) empty_job (
        refuse_if (is_empty i.md.parent_ids) aborted (
          waits_for (map (λ id. metadata_call id keys) i.md.parent_ids)
            (not_file (text "Item::parents()") (text ": provider returned a file as a parent")))))

  check_copy_move_precondition : Text → Item → Text → Started → Started
  unfolding check_invalid_or_destroyed refuse_if illogical ill_argued
  check_copy_move_precondition method new_parent new_name job = check_invalid_or_destroyed method (
      refuse_if (not new_parent.is_valid) (ill_argued method (text ": newParent is invalid")) (
        refuse_if (is_empty new_name) (ill_argued method (text ": newName cannot be empty")) (
          refuse_if (not (account_eq (account_of i) (account_of new_parent)))
            (illogical method (text ": source and target must belong to the same account"))
            (refuse_if (is_file new_parent.md.type)
              (illogical method (text ": newParent cannot be a file")) job))))

  unfoldable pub copy : Item → Text → List Text → Started
  unfolding check_copy_move_precondition
  copy new_parent new_name keys =
      check_copy_move_precondition (text "Item::copy()") new_parent new_name (
        waits_for (copy_call i.md.item_id (item_id new_parent) new_name keys ∷ [])
          (same_kind (text "Item::copy()") i.md))

  unfoldable pub move : Item → Text → List Text → Started
  unfolding check_copy_move_precondition
  move new_parent new_name keys =
      check_copy_move_precondition (text "Item::move()") new_parent new_name (
        waits_for (move_call i.md.item_id (item_id new_parent) new_name keys ∷ [])
          (moved_item (text "Item::move()") i.md))

  -- The answer carries no item.
  unfoldable pub delete_item : Started
  unfolding check_invalid_or_destroyed refuse_if
  delete_item = check_invalid_or_destroyed (text "Item::deleteItem()") (
      refuse_if (is_root i.md.type)
        (refused (with_message permission_denied (text "Item::deleteItem(): cannot delete root")))
        (waits_for (delete_call i.md.item_id ∷ []) accepts_all))

  sized : Text → ℤ → (ℕ → Started) → Started
  unfolding ill_argued
  sized method (pos n) job = job n
  sized method (negsuc n) job = ill_argued method (text ": size must be >= 0")

  unfoldable pub create_uploader : ConflictPolicy → ℤ → List Text → Started
  unfolding check_invalid_or_destroyed refuse_if sized illogical
  create_uploader policy size keys = check_invalid_or_destroyed (text "Item::createUploader()") (
      refuse_if (not (is_file i.md.type))
        (illogical (text "Item::createUploader()") (text ": cannot upload to a folder"))
        (sized (text "Item::createUploader()") size (λ n.
          waits_for (update_call i.md.item_id n (etag_for policy i.md) keys ∷ [])
            (only_file (text "Item::createUploader()")))))

  unfoldable pub create_downloader : ConflictPolicy → Started
  unfolding check_invalid_or_destroyed refuse_if illogical
  create_downloader policy = check_invalid_or_destroyed (text "Item::createDownloader()") (
      refuse_if (not (is_file i.md.type))
        (illogical (text "Item::createDownloader()") (text ": cannot download a folder"))
        (waits_for (download_call i.md.item_id (etag_for policy i.md) ∷ []) accepts_all))

  unfoldable pub list : List Text → Started
  unfolding check_invalid_or_destroyed refuse_if illogical
  list keys = check_invalid_or_destroyed (text "Item::list()") (
      refuse_if (is_file i.md.type)
        (illogical (text "Item::list()") (text ": cannot perform list on a file"))
        (pages (λ token. list_call i.md.item_id token keys) (not_root (text "Item::list()"))))

  unfoldable pub lookup : Text → List Text → Started
  unfolding check_invalid_or_destroyed refuse_if illogical
  lookup name keys = check_invalid_or_destroyed (text "Item::lookup()") (
      refuse_if (is_file i.md.type)
        (illogical (text "Item::lookup()") (text ": cannot perform lookup on a file"))
        (waits_for (lookup_call i.md.item_id name keys ∷ []) accepts_all))

  unfoldable pub create_folder : Text → List Text → Started
  unfolding check_invalid_or_destroyed refuse_if illogical
  create_folder name keys = check_invalid_or_destroyed (text "Item::createFolder()") (
      refuse_if (is_file i.md.type)
        (illogical (text "Item::createFolder()")
          (text ": cannot create a folder with a file as the parent"))
        (waits_for (create_folder_call i.md.item_id name keys ∷ []) (
          not_file (text "Item::createFolder()")
            (text ": impossible file item returned by provider"))))

  allows_overwrite : ConflictPolicy → Bool
  allows_overwrite ignore_conflict = true
  allows_overwrite error_if_conflict = false

  unfoldable pub create_file : Text → ConflictPolicy → ℤ → Text → List Text → Started
  unfolding check_invalid_or_destroyed refuse_if illogical ill_argued sized allows_overwrite
  create_file name policy size content_type keys =
      check_invalid_or_destroyed (text "Item::createFile()") (
        refuse_if (is_file i.md.type)
          (illogical (text "Item::createFile()")
            (text ": cannot create a file with a file as the parent"))
          (sized (text "Item::createFile()") size (λ n.
            refuse_if (is_empty name)
              (ill_argued (text "Item::createFile()") (text ": name cannot be empty"))
              (waits_for
                (create_file_call i.md.item_id name n content_type (allows_overwrite policy) keys
                  ∷ [])
                (only_file (text "Item::createFile()"))))))

pub data ItemRequest : Type 0 where
  for_parents for_list : List Text → ItemRequest
  for_copy for_move : Item → Text → List Text → ItemRequest
  for_delete : ItemRequest
  for_upload : ConflictPolicy → ℤ → List Text → ItemRequest
  for_download : ConflictPolicy → ItemRequest
  for_lookup for_new_folder : Text → List Text → ItemRequest
  for_new_file : Text → ConflictPolicy → ℤ → Text → List Text → ItemRequest

unfoldable pub begin_request : ItemRequest → Item → Option Runtime → Started
begin_request (for_parents keys) i runtime = parents i runtime keys
begin_request (for_list keys) i runtime = list i runtime keys
begin_request (for_copy p n keys) i runtime = copy i runtime p n keys
begin_request (for_move p n keys) i runtime = move i runtime p n keys
begin_request for_delete i runtime = delete_item i runtime
begin_request (for_upload policy size keys) i runtime = create_uploader i runtime policy size keys
begin_request (for_download policy) i runtime = create_downloader i runtime policy
begin_request (for_lookup n keys) i runtime = lookup i runtime n keys
begin_request (for_new_folder n keys) i runtime = create_folder i runtime n keys
begin_request (for_new_file n policy size t keys) i runtime =
    create_file i runtime n policy size t keys
