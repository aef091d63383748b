-- ===== src/Client/Items/Calls.antt =====
-- Which requests on an item reach the provider.
use storage_framework.Base.{Bool, true, false, not, ◌&&◌, ◌≡◌, Option, arith, is_empty}
use storage_framework.Base.Text.{Text}
use storage_framework.Base.Int.{ℤ, pos, negsuc}
use storage_framework.Client.Validate.{is_file, is_root}
use storage_framework.Client.Accounts.{
  Runtime, is_alive, account_eq, Started, waits_for, pages, unless_gone,
}
use storage_framework.Client.Items.{
  Item, account_of, ItemRequest, for_parents, for_list, for_copy, for_move, for_delete, for_upload,
  for_download, for_lookup, for_new_folder, for_new_file, begin_request, parents, list, copy, move,
  delete_item, create_uploader, create_downloader, lookup, create_folder, create_file,
}

-- The provider is called.
unfoldable pub reaches : Started → Bool
reaches (waits_for calls v) = true
reaches (pages call v) = true
reaches _ = false

not_negative : ℤ → Bool
not_negative (pos n) = true
not_negative (negsuc n) = false

abbrev can_receive : Item → Item → Text → Bool
can_receive i p n =
    p.is_valid
    && (not (is_empty n) && (account_eq (account_of i) (account_of p) && not (is_file p.md.type)))

-- What makes sense for an item that there is.
unfoldable pub makes_sense : ItemRequest → Item → Bool
unfolding not_negative
makes_sense (for_parents keys) i = not (is_root i.md.type) && not (is_empty i.md.parent_ids)
makes_sense (for_list keys) i = not (is_file i.md.type)
makes_sense (for_copy p n keys) i = can_receive i p n
makes_sense (for_move p n keys) i = can_receive i p n
makes_sense for_delete i = not (is_root i.md.type)
makes_sense (for_upload policy size keys) i = is_file i.md.type && not_negative size
makes_sense (for_download policy) i = is_file i.md.type
makes_sense (for_lookup n keys) i = not (is_file i.md.type)
makes_sense (for_new_folder n keys) i = not (is_file i.md.type)
makes_sense (for_new_file n policy size t keys) i =
    not (is_file i.md.type) && (not_negative size && not (is_empty n))

-- A request on an item reaches the provider exactly if the item is valid, its runtime is there and was
-- not shut down, and the request makes sense: only a file is uploaded or downloaded, with a size that is
-- not negative; only a folder or root has entries and gets new ones; a root has no parents and is not
-- deleted; and an item is copied or moved to a name that is not empty, in a folder of its own account.
pub begin_request-reaches :
    (q : ItemRequest) (i : Item) (runtime : Option Runtime)
    → reaches (begin_request q i runtime) ≡ i.is_valid && (is_alive runtime && makes_sense q i)
unfolding begin_request reaches makes_sense unless_gone parents list copy move delete_item
    create_uploader create_downloader lookup create_folder create_file
begin_request-reaches (for_parents keys) i runtime = ground arith
begin_request-reaches (for_list keys) i runtime = ground arith
begin_request-reaches (for_copy p n keys) i runtime = ground arith
begin_request-reaches (for_move p n keys) i runtime = ground arith
begin_request-reaches for_delete i runtime = ground arith
begin_request-reaches (for_upload policy (pos n) keys) i runtime = ground arith
begin_request-reaches (for_upload policy (negsuc n) keys) i runtime = ground arith
begin_request-reaches (for_download policy) i runtime = ground arith
begin_request-reaches (for_lookup n keys) i runtime = ground arith
begin_request-reaches (for_new_folder n keys) i runtime = ground arith
begin_request-reaches (for_new_file n policy (pos m) t keys) i runtime = ground arith
begin_request-reaches (for_new_file n policy (negsuc m) t keys) i runtime = ground arith
