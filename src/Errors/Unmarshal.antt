-- ===== src/Errors/Unmarshal.antt =====
-- src/qt/internal/unmarshal_error.cpp.
use storage_framework.Base.{
  ℕ, zero, suc, Bool, true, not, ◌≡◌, Option, none, some, List, [], ◌∷◌, ◌++◌, if◌then◌else◌,
  length, drop,
}
use storage_framework.Base.Text.{Text, text, text_eq, starts_with}
use storage_framework.Base.Int.{ℤ}
use storage_framework.Errors.Marshal.{Variant, str, int, dbus_error_prefix}
use storage_framework.Errors.StorageError.{
  ErrorType, StorageError, make_error, local_comms, not_exists_error, exists_error,
  resource_failure,
}
use storage_framework.Errors.StorageError

abbrev pub get_elem? : List Variant → ℕ → Option Variant
get_elem? [] n = none
get_elem? (x ∷ xs) zero = some x
get_elem? (x ∷ xs) (suc n) = get_elem? xs n

-- What the code takes from QtDBus: the arguments of a reply by position and type, and the test that
-- an error's name is none of those that the bus reserves (`QDBusError::Other`).
pub record DbusAccess : Type 0 where
  pub text_at : List Variant → ℕ → Text
  pub int_at : List Variant → ℕ → ℤ
  pub is_other : Text → Bool
  pub text_at_lem :
      (args : List Variant) (n : ℕ) (t : Text)
      → get_elem? args n ≡ some (str t)
      → text_at args n ≡ t
  pub int_at_lem :
      (args : List Variant) (n : ℕ) (i : ℤ) → get_elem? args n ≡ some (int i) → int_at args n ≡ i
  pub is_other-prefix : (t : Text) → is_other (dbus_error_prefix ++ t) ≡ true

-- A call that the service answered by an error.
pub record FailedCall : Type 0 where
  pub name : Text
  pub message : Text
  pub args : List Variant

module _ (bus : DbusAccess) (asserts : Bool) where
  -- The template `make_error` and its three specialisations.
  unfoldable pub factory : ErrorType → FailedCall → Option StorageError
  factory StorageError.not_exists c =
      not_exists_error asserts (bus.text_at c.args 0) (bus.text_at c.args 1)
  factory StorageError.exists c =
      exists_error asserts (bus.text_at c.args 0) (bus.text_at c.args 1) (bus.text_at c.args 2)
  factory StorageError.resource_error c =
      resource_failure asserts (bus.text_at c.args 0) (bus.int_at c.args 1)
  factory t c = make_error asserts t (bus.text_at c.args 0)

-- The keys of `exception_factories` with the type that each is bound to.
abbrev pub exception_factories : List (Text × ErrorType)
exception_factories =
    (text "RemoteCommsException", StorageError.remote_comms_error)
    ∷ (text "NotExistsException", StorageError.not_exists)
    ∷ (text "ExistsException", StorageError.exists)
    ∷ (text "ConflictException", StorageError.conflict)
    ∷ (text "UnauthorizedException", StorageError.unauthorized)
    ∷ (text "PermissionException", StorageError.permission_denied)
    ∷ (text "QuotaException", StorageError.quota_exceeded)
    ∷ (text "CancelledException", StorageError.cancelled)
    ∷ (text "LogicException", StorageError.logic_error)
    ∷ (text "InvalidArgumentException", StorageError.invalid_argument)
    ∷ (text "ResourceException", StorageError.resource_error)
    ∷ (text "UnknownException", StorageError.local_comms_error)
    ∷ []

unfoldable pub find : Text → List (Text × ErrorType) → Option ErrorType
unfolding text_eq
find k [] = none
find k ((j, t) ∷ m) = if text_eq j k then some t else find k m

module _ (bus : DbusAccess) (asserts : Bool) where
  unfoldable pub unknown_type : FailedCall → Text → Option StorageError
  unknown_type c exception_type = local_comms asserts (
      text "unmarshal_exception(): unknown exception type received from server: "
      ++ (exception_type ++ (text ": " ++ c.message)))

  unfoldable pub by_factory : FailedCall → Text → Option ErrorType → Option StorageError
  by_factory c exception_type none = unknown_type c exception_type
  by_factory c exception_type (some t) = factory bus asserts t c

  unfoldable pub unmarshal_error : FailedCall → Option StorageError
  unfolding unknown_type by_factory find starts_with
  unmarshal_error c =
      if not (bus.is_other c.name)
      then local_comms asserts c.message
      else if not (starts_with c.name dbus_error_prefix)
      then unknown_type c c.name
      else let exception_type = drop (length dbus_error_prefix) c.name in
        by_factory c exception_type (find exception_type exception_factories)
