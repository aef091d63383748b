-- ===== src/ClientV1/RemoteItems/Handlers.antt =====
-- src/qt/client/internal/remote_client: what the handlers (Handler.h) of ItemImpl.cpp, FolderImpl.cpp,
-- FileImpl.cpp and RootImpl.cpp report of a reply.
use storage_framework.Base.{
  Bool, true, false, Option, none, some, List, [], ◌∷◌, ◌++◌, if◌then◌else◌, is_empty,
}
use storage_framework.Base.Text.{Text, text}
use storage_framework.Base.Int.{ℤ, pos, ltb_ℤ}
use storage_framework.Base.Common.{ItemType, folder}
use storage_framework.Client.Validate.{ItemMetadata, DateTime, is_root}
use storage_framework.ClientV1.Exceptions.{
  StorageException, runtime_destroyed, not_exists, local_comms,
}
use storage_framework.ClientV1.Future.{Report, result, finished, make_exceptional_future}
use storage_framework.ClientV1.RemoteItems.Validate.{validate}
use storage_framework.ClientV1.RemoteItems.Requests.{
  RemoteItem, Arrival, fails, arrives, destroyed, handle, result_unless, first_of, type_number,
  make_item, NewUploader, uploader_etag,
}

module _ (parse_date : Text → DateTime) (number : ℤ → Text) where
  -- `get_root` in a handler: the runtime may be gone by then.
  abbrev pub root_gone : Text → RemoteItem → Option StorageException
  root_gone method this = if this.alive then none else some (runtime_destroyed method)

  impossible_type : Text → ItemMetadata → StorageException
  impossible_type method md = local_comms (
      method
      ++ (text ": impossible item type returned by server: " ++ number (pos (type_number md.type))))

  -- The reply to a copy. Its last check names another method.
  unfoldable pub copied : RemoteItem → Arrival ItemMetadata → List (Report RemoteItem)
  unfolding impossible_type
  copied this reply = handle reply (λ md.
      result_unless
        (first_of (root_gone (text "Item::copy()") this) (
          first_of (validate parse_date (text "Item::copy()") md) (
            if is_root md.type
            then some (impossible_type (text "File::create_folder()") md)
            else none)))
        (make_item md))

  unfoldable pub moved : RemoteItem → Arrival ItemMetadata → List (Report RemoteItem)
  moved this reply = handle reply (λ md.
      result_unless
        (first_of (root_gone (text "Item::move()") this) (
          first_of (validate parse_date (text "Item::move()") md) (
            if is_root md.type
            then some (local_comms (text "Item::move(): impossible root item returned by server"))
            else none)))
        (make_item md))

  -- The item, which is marked if the reply is no error, and the reports.
  unfoldable pub item_deleted :
      RemoteItem → Arrival (Unit {0}) → RemoteItem × List (Report (Unit {0}))
  item_deleted this (fails e) = (this, make_exceptional_future e)
  item_deleted this (arrives u) = (record this { deleted = true }, finished ∷ [])

  -- The items of a page, roots left out, or the first error.
  unfoldable pub take_items :
      Text → List ItemMetadata → List RemoteItem → Option StorageException × List RemoteItem
  take_items method [] items = (none, items)
  take_items method (md ∷ mds) items =
      let rest =
        take_items method mds (if is_root md.type then items else items ++ make_item md ∷ []) in
      elim (validate parse_date method md) [ some e ↦ (some e, items) | none ↦ rest ]

  -- One page of a listing, and the token of the next one, which is asked for.
  unfoldable pub listed_page :
      List ItemMetadata → Text → List (Report (List RemoteItem)) × Option Text
  listed_page mds token =
      let r = take_items (text "Folder::list()") mds [] in
      elim r.0 [
        | some e ↦ (make_exceptional_future e, none)
        | none ↦
            if is_empty token
            then (result r.1 ∷ finished ∷ [], none)
            else (result r.1 ∷ [], some token)
      ]

  unfoldable pub listed :
      RemoteItem
      → Arrival (List ItemMetadata × Text)
      → List (Report (List RemoteItem)) × Option Text
  listed this (fails e) = (make_exceptional_future e, none)
  listed this (arrives (mds, token)) = elim (root_gone (text "Folder::list()") this) [
    | some e ↦ (make_exceptional_future e, none)
    | none ↦ listed_page mds token
  ]

  unfoldable pub looked_up :
      RemoteItem → Text → Arrival (List ItemMetadata) → List (Report (List RemoteItem))
  looked_up this name reply = handle reply (λ mds.
      let r = take_items (text "Folder::lookup()") mds [] in
      result_unless
        (first_of (root_gone (text "Folder::lookup()") this) (
          first_of r.0 (
            if is_empty r.1
            then some (not_exists (text "Folder::lookup(): no such item: " ++ name) name)
            else none)))
        r.1)

  abbrev pub is_folder : ItemType → Bool
  is_folder folder = true
  is_folder _ = false

  unfoldable pub folder_created : RemoteItem → Arrival ItemMetadata → List (Report RemoteItem)
  unfolding impossible_type
  folder_created this reply = handle reply (λ md.
      result_unless
        (first_of (root_gone (text "Folder::create_folder()") this) (
          first_of (validate parse_date (text "Folder::create_folder()") md) (
            if is_folder md.type
            then none
            else some (impossible_type (text "File::create_folder()") md))))
        (make_item md))

  -- The descriptor is not looked at.
  unfoldable pub file_created : RemoteItem → ℤ → Arrival (Text × ℤ) → List (Report NewUploader)
  file_created this size reply = handle reply (λ r.
      result_unless (root_gone (text "Folder::create_file()") this)
        (record { upload_id = r.0; fd = r.1; size = size; old_etag = [] }))

  bad_descriptor : Text → ℤ → Option StorageException
  bad_descriptor method fd =
      if ltb_ℤ fd (pos 0)
      then some (
          local_comms
            (method ++ (text ": impossible file descriptor returned by server: " ++ number fd)))
      else none

  unfoldable pub uploader_created :
      RemoteItem → Bool → ℤ → Arrival (Text × ℤ) → List (Report NewUploader)
  unfolding bad_descriptor
  uploader_created this overwrite size reply = handle reply (λ r.
      result_unless
        (first_of (root_gone (text "File::create_uploader()") this)
          (bad_descriptor (text "File::create_uploader()") r.1))
        (record {
          upload_id = r.0;
          fd = r.1;
          size = size;
          old_etag = uploader_etag this overwrite;
        }))

  unfoldable pub downloader_created : RemoteItem → Arrival (Text × ℤ) → List (Report (Text × ℤ))
  unfolding bad_descriptor
  downloader_created this reply = handle reply (λ r.
      result_unless
        (first_of (destroyed (text "File::create_downloader()") this)
          (bad_descriptor (text "File::create_downloader()") r.1))
        r)

  unfoldable pub got : RemoteItem → Arrival ItemMetadata → List (Report RemoteItem)
  got this reply = handle reply (λ md.
      result_unless
        (first_of (root_gone (text "Root::get()") this)
          (validate parse_date (text "Root::get()") md))
        (make_item md))
