-- ===== src/Errors/StorageError.antt =====
-- src/qt/internal/StorageErrorImpl.cpp, with the types of include/unity/storage/qt/StorageError.h.
use storage_framework.Base.{ℕ, zero, suc, Bool, true, false, Option, List, [], ◌∷◌, ◌++◌, checked}
use storage_framework.Base.Text.{Text, text}
use storage_framework.Base.Int.{ℤ, pos}

pub data ErrorType : Type 0 where
  no_error local_comms_error remote_comms_error runtime_destroyed : ErrorType
  not_exists exists conflict permission_denied cancelled logic_error : ErrorType
  invalid_argument resource_error quota_exceeded unauthorized : ErrorType

-- The enumerators' values.
unfoldable pub index : ErrorType → ℕ
index no_error = 0
index local_comms_error = 1
index remote_comms_error = 2
index runtime_destroyed = 3
index not_exists = 4
index exists = 5
index conflict = 6
index permission_denied = 7
index cancelled = 8
index logic_error = 9
index invalid_argument = 10
index resource_error = 11
index quota_exceeded = 12
index unauthorized = 13

-- The initialisers of `ERROR_NAMES`, which are thirteen.
abbrev pub error_names : List Text
error_names =
    text "NoError"
    ∷ text "LocalCommsError"
    ∷ text "RemoteCommsError"
    ∷ text "RuntimeDestroyed"
    ∷ text "NotExists"
    ∷ text "Exists"
    ∷ text "Conflict"
    ∷ text "PermissionDenied"
    ∷ text "Cancelled"
    ∷ text "LogicError"
    ∷ text "InvalidArgument"
    ∷ text "ResourceError"
    ∷ text "Unauthorized"
    ∷ []

-- An element of the array: one without an initialiser is the empty `QString`.
element : List Text → ℕ → Text
element [] n = []
element (x ∷ xs) zero = x
element (x ∷ xs) (suc n) = element xs n

pub record StorageError : Type 0 where
  pub type : ErrorType
  pub name : Text
  pub message : Text
  pub item_id : Text
  pub item_name : Text
  pub error_code : ℤ

unfoldable pub error_of_type : ErrorType → StorageError
unfolding index element
error_of_type t = record {
  type = t;
  name = element error_names (index t);
  message = [];
  item_id = [];
  item_name = [];
  error_code = pos 0;
}

unfoldable pub default_error : StorageError
unfolding error_of_type
default_error = record (error_of_type no_error) { message = text "No error" }

-- The types that the constructor with a message alone admits.
is_plain : ErrorType → Bool
is_plain local_comms_error = true
is_plain remote_comms_error = true
is_plain runtime_destroyed = true
is_plain conflict = true
is_plain permission_denied = true
is_plain cancelled = true
is_plain logic_error = true
is_plain invalid_argument = true
is_plain _ = false

-- The constructor's result, where its assertion holds.
unfoldable pub with_message : ErrorType → Text → StorageError
unfolding error_of_type
with_message t msg = record (error_of_type t) { message = msg }

module _ (asserts : Bool) where
  unfoldable pub make_error : ErrorType → Text → Option StorageError
  unfolding is_plain with_message
  make_error t msg = checked asserts (is_plain t) (with_message t msg)

  unfoldable pub local_comms : Text → Option StorageError
  unfolding make_error
  local_comms msg = make_error local_comms_error msg

  unfoldable pub not_exists_error : Text → Text → Option StorageError
  unfolding error_of_type
  not_exists_error msg key =
      checked asserts true
        (record (error_of_type not_exists) { message = msg; item_id = key; item_name = key })

  unfoldable pub exists_error : Text → Text → Text → Option StorageError
  unfolding error_of_type
  exists_error msg id name =
      checked asserts true
        (record (error_of_type exists) { message = msg; item_id = id; item_name = name })

  unfoldable pub resource_failure : Text → ℤ → Option StorageError
  unfolding error_of_type
  resource_failure msg code =
      checked asserts true
        (record (error_of_type resource_error) { message = msg; error_code = code })

unfoldable pub error_string : StorageError → Text
error_string e = e.name ++ text ": " ++ e.message

-- Each enumerator's own spelling.
unfoldable pub spelling : ErrorType → Text
spelling no_error = text "NoError"
spelling local_comms_error = text "LocalCommsError"
spelling remote_comms_error = text "RemoteCommsError"
spelling runtime_destroyed = text "RuntimeDestroyed"
spelling not_exists = text "NotExists"
spelling exists = text "Exists"
spelling conflict = text "Conflict"
spelling permission_denied = text "PermissionDenied"
spelling cancelled = text "Cancelled"
spelling logic_error = text "LogicError"
spelling invalid_argument = text "InvalidArgument"
spelling resource_error = text "ResourceError"
spelling quota_exceeded = text "QuotaExceeded"
spelling unauthorized = text "Unauthorized"
