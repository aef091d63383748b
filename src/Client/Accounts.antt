-- ===== src/Client/Accounts.antt =====
-- Accounts and the runtime: src/internal/AccountDetails.cpp, src/qt/internal/AccountImpl.cpp and
-- src/qt/internal/RuntimeImpl.cpp.
pub mod Order
use storage_framework.Base.{
  [], ◌∷◌, ℕ, Bool, true, false, not, ◌&&◌, ◌||◌, Option, none, some, List, ◌++◌, if◌then◌else◌,
  ◌==◌, ltb,
}
use storage_framework.Base.Text.{Text, text, text_eq, text_lt}
use storage_framework.Base.Common.{ItemType, file, folder, root}
use storage_framework.Errors.StorageError.{
  StorageError, with_message, local_comms_error, logic_error, runtime_destroyed, default_error,
}
use storage_framework.Client.Validate.{ItemMetadata}

pub record AccountDetails : Type 0 where
  pub bus_name : Text
  pub object_path : Text
  pub id : ℕ
  pub service_id : Text
  pub display_name : Text
  pub provider_name : Text
  pub icon_name : Text

unfoldable pub details_eq : AccountDetails → AccountDetails → Bool
details_eq l r =
    l.id == r.id && (text_eq l.service_id r.service_id && text_eq l.display_name r.display_name)

unfoldable pub details_lt : AccountDetails → AccountDetails → Bool
details_lt l r =
    if ltb l.id r.id
    then true
    else if ltb r.id l.id
    then false
    else if text_lt l.service_id r.service_id
    then true
    else if text_lt r.service_id l.service_id
    then false
    else text_lt l.display_name r.display_name

pub record Account : Type 0 where
  pub is_valid : Bool
  pub details : AccountDetails

abbrev pub no_account : Account
no_account = record {
  is_valid = false;
  details = record {
    bus_name = [];
    object_path = [];
    id = 0;
    service_id = [];
    display_name = [];
    provider_name = [];
    icon_name = [];
  };
}

unfoldable pub make_account : AccountDetails → Account
make_account details = record { is_valid = true; details = details }

unfoldable pub account_eq : Account → Account → Bool
unfolding details_eq
account_eq l r = if l.is_valid then r.is_valid && details_eq l.details r.details else not r.is_valid

unfoldable pub account_lt : Account → Account → Bool
unfolding details_lt
account_lt l r =
    if not l.is_valid
    then r.is_valid
    else if not r.is_valid
    then false
    else details_lt l.details r.details

unfoldable pub account_le : Account → Account → Bool
account_le l r = account_lt l r || account_eq l r

unfoldable pub account_gt : Account → Account → Bool
account_gt l r = not (account_le l r)

-- `boost::hash_combine` and `qHash`.
module _ (hash_combine : ℕ → ℕ → ℕ) (q_hash : Text → ℕ) where
  unfoldable pub account_hash : Account → ℕ
  account_hash a =
      if not a.is_valid
      then 0
      else hash_combine (hash_combine a.details.id (q_hash a.details.service_id))
          (q_hash a.details.display_name)

pub record Runtime : Type 0 where
  pub is_valid : Bool
  pub error : StorageError

unfoldable pub shutdown : Runtime → StorageError × Runtime
shutdown r = if r.is_valid then (default_error, record r { is_valid = false }) else (
  with_message runtime_destroyed (text "Runtime::shutdown(): Runtime was destroyed previously"),
  record r {
    error =
        with_message runtime_destroyed
          (text "Runtime::shutdown(): Runtime was destroyed previously");
  },
)

-- `runtime_impl_.lock()` and its answer's `isValid()`: there is a runtime, and it was not shut down.
abbrev pub is_alive : Option Runtime → Bool
is_alive none = false
is_alive (some r) = r.is_valid

-- The calls of a provider's methods, with `keys` last.
pub data Call : Type 0 where
  roots_call : List Text → Call
  metadata_call : Text → List Text → Call
  list_call : Text → Text → List Text → Call
  lookup_call create_folder_call : Text → Text → List Text → Call
  copy_call move_call : Text → Text → Text → List Text → Call
  delete_call : Text → Call
  update_call : Text → ℕ → Text → List Text → Call
  download_call : Text → Text → Call
  create_file_call : Text → Text → ℕ → Text → Bool → List Text → Call

-- What a method of the client starts: a job with an error, one that is empty, one that waits for the
-- answers to some calls, or one that lists page by page. `validate` gives the error that it throws.
pub data Started : Type 0 where
  refused : StorageError → Started
  empty_job : Started
  waits_for : List Call → (ItemMetadata → Option StorageError) → Started
  pages : (Text → Call) → (ItemMetadata → Option StorageError) → Started
  aborted : Started

unfoldable pub accepts_all : ItemMetadata → Option StorageError
accepts_all md = none

-- An account's or an item's own guards.
unfoldable pub unless_gone : Text → Text → Bool → Option Runtime → Started → Started
unless_gone method what is_valid runtime job =
    if not is_valid
    then refused
        (with_message logic_error (method ++ (text ": cannot create job from invalid " ++ what)))
    else if not (is_alive runtime)
    then refused
        (with_message runtime_destroyed (method ++ text ": Runtime was destroyed previously"))
    else job

type_number : ItemType → Text
type_number file = text "0"
type_number folder = text "1"
type_number root = text "2"

unfoldable pub root_only : ItemMetadata → Option StorageError
unfolding type_number
root_only md = elim md.type [
  | root ↦ none
  | t ↦ some (
      with_message local_comms_error (
        text "Account::roots(): provider returned non-root item type: "
        ++ (type_number t ++ (text " (id = " ++ (md.item_id ++ text ")")))))
]

unfoldable pub account_roots : Account → Option Runtime → List Text → Started
account_roots a runtime keys =
    unless_gone (text "Account::roots()") (text "account") a.is_valid runtime
      (waits_for (roots_call keys ∷ []) root_only)

unfoldable pub get : Account → Option Runtime → Text → List Text → Started
get a runtime id keys =
    unless_gone (text "Account::get()") (text "account") a.is_valid runtime
      (waits_for (metadata_call id keys ∷ []) accepts_all)
