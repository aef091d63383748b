-- ===== src/ClientV1/RemoteItems/Requests.antt =====
-- src/qt/client/internal/remote_client: what the calls of ItemImpl.cpp, FolderImpl.cpp, FileImpl.cpp and
-- RootImpl.cpp check, and the requests that they send.
use storage_framework.Base.{ℕ, Bool, true, false, Option, none, some, List, [], ◌++◌, if◌then◌else◌}
use storage_framework.Base.Text.{Text, text}
use storage_framework.Base.Int.{ℤ, pos, ltb_ℤ}
use storage_framework.Base.Common.{ItemType, file, folder, root}
use storage_framework.Client.Validate.{ItemMetadata, is_root}
use storage_framework.ClientV1.Exceptions.{
  StorageException, deleted, runtime_destroyed, logic, invalid_argument,
}
use storage_framework.ClientV1.Future.{Report, make_exceptional_future, make_ready_future}

-- `alive` says whether the item's root, its account and the runtime are there.
pub record RemoteItem : Type 0 where
  pub md : ItemMetadata
  pub type : ItemType
  pub deleted : Bool
  pub alive : Bool

-- The methods of a provider that the items call.
pub data Message : Type 0 where
  copy_message move_message : Text → Text → Text → Message
  delete_message : Text → Message
  list_message lookup_message create_folder_message download_message : Text → Text → Message
  create_file_message : Text → Text → ℤ → Text → Bool → Message
  update_message : Text → ℤ → Text → Message
  metadata_message : Text → Message

-- A call gives a future that is ready, or sends a request.
pub data Started (A : Type 0) : Type 0 where
  ready : List (Report A) → Started A
  sends : Message → Started A

-- What comes back: an error, as the exception that it is turned into, or values.
pub data Arrival (A : Type 0) : Type 0 where
  fails : StorageException → Arrival A
  arrives : A → Arrival A

-- `ItemBase::throw_if_destroyed`.
unfoldable pub destroyed : Text → RemoteItem → Option StorageException
destroyed method i =
    if i.deleted
    then some (
        deleted (method ++ (text ": \"" ++ (i.md.item_id ++ text "\" was deleted previously")))
          i.md.item_id)
    else if i.alive
    then none
    else some (runtime_destroyed method)

unfoldable pub unless : {A : Type 0} → Option StorageException → Started A → Started A
unless none k = k
unless (some e) k = ready (make_exceptional_future e)

-- `Handler`: the closure sees the reply only if it is no error.
unfoldable pub handle : {A B : Type 0} → Arrival A → (A → List (Report B)) → List (Report B)
handle (fails e) f = make_exceptional_future e
handle (arrives a) f = f a

-- The result, or what is thrown instead of it.
unfoldable pub result_unless : {B : Type 0} → Option StorageException → B → List (Report B)
result_unless (some e) b = make_exceptional_future e
result_unless none b = make_ready_future b

abbrev pub first_of : Option StorageException → Option StorageException → Option StorageException
first_of (some e) f = some e
first_of none f = f

abbrev pub type_number : ItemType → ℕ
type_number file = 0
type_number folder = 1
type_number root = 2

-- `make_item`, `make_file`, `make_folder` and `make_root`.
unfoldable pub make_item : ItemMetadata → RemoteItem
make_item md = record { md = md; type = md.type; deleted = false; alive = true }

-- Copies and moves.
unfoldable pub transfer :
    Text
    → (Text → Text → Text → Message)
    → RemoteItem
    → Option RemoteItem
    → Text
    → Started RemoteItem
transfer method message this none new_name =
    ready
      (make_exceptional_future (invalid_argument (method ++ text ": new_parent cannot be nullptr")))
transfer method message this (some parent) new_name =
    unless (first_of (destroyed method this) (destroyed method parent))
      (sends (message this.md.item_id parent.md.item_id new_name))

unfoldable pub copy : RemoteItem → Option RemoteItem → Text → Started RemoteItem
unfolding transfer
copy = transfer (text "Item::copy()") copy_message

unfoldable pub move : RemoteItem → Option RemoteItem → Text → Started RemoteItem
unfolding transfer
move = transfer (text "Item::move()") move_message

unfoldable pub delete_item : RemoteItem → Started (Unit {0})
delete_item this = unless (destroyed (text "Item::delete_item()") this) (
    if is_root this.type
    then ready
        (make_exceptional_future (logic (text "Item::delete_item(): cannot delete root folder")))
    else sends (delete_message this.md.item_id))

unfoldable pub list : RemoteItem → Started (List RemoteItem)
list this =
    unless (destroyed (text "Folder::list()") this) (sends (list_message this.md.item_id []))

unfoldable pub lookup : RemoteItem → Text → Started (List RemoteItem)
lookup this name =
    unless (destroyed (text "Folder::lookup()") this) (sends (lookup_message this.md.item_id name))

unfoldable pub create_folder : RemoteItem → Text → Started RemoteItem
create_folder this name =
    unless (destroyed (text "Folder::create_folder()") this)
      (sends (create_folder_message this.md.item_id name))

unfoldable pub negative_size : Text → ℤ → Option StorageException
negative_size method size =
    if ltb_ℤ size (pos 0)
    then some (invalid_argument (method ++ text ": size must be >= 0"))
    else none

-- A new uploader: its id, descriptor, size and ETag.
pub record NewUploader : Type 0 where
  pub upload_id : Text
  pub fd : ℤ
  pub size : ℤ
  pub old_etag : Text

unfoldable pub create_file : RemoteItem → Text → ℤ → Started NewUploader
unfolding negative_size
create_file this name size =
    unless
      (first_of (destroyed (text "Folder::create_file()") this)
        (negative_size (text "Folder::create_file()") size))
      (sends
        (create_file_message this.md.item_id name size (text "application/octet-stream") false))

abbrev pub uploader_etag : RemoteItem → Bool → Text
uploader_etag this overwrite = if overwrite then [] else this.md.etag

unfoldable pub create_uploader : RemoteItem → Bool → ℤ → Started NewUploader
unfolding negative_size
create_uploader this overwrite size =
    unless
      (first_of (destroyed (text "File::create_uploader()") this)
        (negative_size (text "File::create_uploader()") size))
      (sends (update_message this.md.item_id size (uploader_etag this overwrite)))

unfoldable pub create_downloader : RemoteItem → Started (Text × ℤ)
create_downloader this =
    unless (destroyed (text "File::create_downloader()") this)
      (sends (download_message this.md.item_id []))

unfoldable pub get : RemoteItem → Text → Started RemoteItem
get this id = unless (destroyed (text "Root::get()") this) (sends (metadata_message id))
