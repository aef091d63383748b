-- ===== src/Errors/RoundTrip.antt =====
-- What becomes of a provider's exception on its way to the client: src/provider/internal/Handler.cpp
-- at one end, src/qt/internal/unmarshal_error.cpp at the other.
use storage_framework.Base.{
  Bool, true, false, ◌≡◌, refl, ◌↔◌, ◌⊎◌, Option, none, some, List, [], ◌∙◌, ◌++◌, arith, checked,
}
use storage_framework.Base.Text.{Text, text}
use storage_framework.Errors.Exceptions.{StorageException, Thrown, storage}
use storage_framework.Errors.Exceptions
use storage_framework.Errors.Marshal.{ErrorReply, Variant, dbus_error_prefix, marshal_exception}
use storage_framework.Errors.StorageError.{
  ErrorType, StorageError, error_of_type, local_comms, spelling,
}
use storage_framework.Errors.StorageError
use storage_framework.Errors.Unmarshal.{
  DbusAccess, FailedCall, factory, find, exception_factories, unmarshal_error, by_factory,
  unknown_type,
}

-- The reply as the client's pending call shows it. `message` is what QtDBus makes of the reply.
abbrev pub delivered : Text → ErrorReply → FailedCall
delivered message r = record { name = r.name; message = message; args = r.args }

-- The client's type for each of the provider's.
abbrev pub client_type : StorageException → ErrorType
client_type (Exceptions.remote_comms m) = StorageError.remote_comms_error
client_type (Exceptions.not_exists m k) = StorageError.not_exists
client_type (Exceptions.exists m i n) = StorageError.exists
client_type (Exceptions.conflict m) = StorageError.conflict
client_type (Exceptions.unauthorized m) = StorageError.unauthorized
client_type (Exceptions.permission m) = StorageError.permission_denied
client_type (Exceptions.quota m) = StorageError.quota_exceeded
client_type (Exceptions.cancelled m) = StorageError.cancelled
client_type (Exceptions.logic m) = StorageError.logic_error
client_type (Exceptions.invalid_argument m) = StorageError.invalid_argument
client_type (Exceptions.resource m c) = StorageError.resource_error
client_type (Exceptions.unknown m) = StorageError.local_comms_error
client_type (Exceptions.other t m) = StorageError.local_comms_error

-- The error that the client ought to see: the type with its name, the message, and the data members.
abbrev pub received : StorageException → StorageError
received (Exceptions.not_exists m k) = record (error_of_type StorageError.not_exists) {
  message = m;
  item_id = k;
  item_name = k;
}
received (Exceptions.exists m i n) = record (error_of_type StorageError.exists) {
  message = m;
  item_id = i;
  item_name = n;
}
received (Exceptions.resource m c) = record (error_of_type StorageError.resource_error) {
  message = m;
  error_code = c;
}
received e = record (error_of_type (client_type e)) { message = Exceptions.error_message e }

-- One of the classes of Exceptions.h, and no subclass of a provider's own.
abbrev pub IsKnown : StorageException → Type 0
IsKnown (Exceptions.other t m) = ⊥
IsKnown _ = Unit

-- Whether the constructors of `StorageErrorImpl` let the type pass.
abbrev pub is_admitted : ErrorType → Bool
is_admitted StorageError.quota_exceeded = false
is_admitted StorageError.unauthorized = false
is_admitted _ = true

module _ (bus : DbusAccess) (asserts : Bool) (message : Text) where
  unmarshal-found :
      (k : Text) (args : List Variant) (r : Option ErrorType)
      → find k exception_factories ≡ r
      → unmarshal_error bus asserts
          (record { name = dbus_error_prefix ++ k; message = message; args = args })
        ≡ by_factory bus asserts
            (record { name = dbus_error_prefix ++ k; message = message; args = args })
            k
            r
  unfolding unmarshal_error
  unmarshal-found k args r h = rw (bus.is_other-prefix k, h)

  -- The whole way, in either build.
  pub unmarshal-marshal_checked :
      (e : StorageException)
      → IsKnown e
      → unmarshal_error bus asserts (delivered message (marshal_exception (storage e)))
        ≡ checked asserts (is_admitted (client_type e)) (received e)
  unfolding marshal_exception factory by_factory StorageError.make_error
      StorageError.not_exists_error StorageError.exists_error StorageError.resource_failure find
  unmarshal-marshal_checked (Exceptions.remote_comms m) k =
      unmarshal-found (text "RemoteCommsException") _ _ refl ∙ rw (bus.text_at_lem _ 0 m refl)
  unmarshal-marshal_checked (Exceptions.conflict m) k =
      unmarshal-found (text "ConflictException") _ _ refl ∙ rw (bus.text_at_lem _ 0 m refl)
  unmarshal-marshal_checked (Exceptions.unauthorized m) k =
      unmarshal-found (text "UnauthorizedException") _ _ refl ∙ rw (bus.text_at_lem _ 0 m refl)
  unmarshal-marshal_checked (Exceptions.permission m) k =
      unmarshal-found (text "PermissionException") _ _ refl ∙ rw (bus.text_at_lem _ 0 m refl)
  unmarshal-marshal_checked (Exceptions.quota m) k =
      unmarshal-found (text "QuotaException") _ _ refl ∙ rw (bus.text_at_lem _ 0 m refl)
  unmarshal-marshal_checked (Exceptions.cancelled m) k =
      unmarshal-found (text "CancelledException") _ _ refl ∙ rw (bus.text_at_lem _ 0 m refl)
  unmarshal-marshal_checked (Exceptions.logic m) k =
      unmarshal-found (text "LogicException") _ _ refl ∙ rw (bus.text_at_lem _ 0 m refl)
  unmarshal-marshal_checked (Exceptions.invalid_argument m) k =
      unmarshal-found (text "InvalidArgumentException") _ _ refl ∙ rw (bus.text_at_lem _ 0 m refl)
  unmarshal-marshal_checked (Exceptions.unknown m) k =
      unmarshal-found (text "UnknownException") _ _ refl ∙ rw (bus.text_at_lem _ 0 m refl)
  unmarshal-marshal_checked (Exceptions.not_exists m key) k =
      unmarshal-found (text "NotExistsException") _ _ refl
      ∙ rw (bus.text_at_lem _ 0 m refl, bus.text_at_lem _ 1 key refl)
  unmarshal-marshal_checked (Exceptions.exists m i n) k =
      unmarshal-found (text "ExistsException") _ _ refl
      ∙ rw (bus.text_at_lem _ 0 m refl, bus.text_at_lem _ 1 i refl, bus.text_at_lem _ 2 n refl)
  unmarshal-marshal_checked (Exceptions.resource m c) k =
      unmarshal-found (text "ResourceException") _ _ refl
      ∙ rw (bus.text_at_lem _ 0 m refl, bus.int_at_lem _ 1 c refl)
  unmarshal-marshal_checked (Exceptions.other t m) k = absurd k

-- In a build without assertions, every exception of the provider's interface but one of a class that
-- a provider derives itself arrives at the client as the error of its own type, with the message and
-- with the key, the identity and name, or the error code that it was thrown with.
pub unmarshal-marshal :
    (bus : DbusAccess) (message : Text) (e : StorageException)
    → IsKnown e
    → unmarshal_error bus false (delivered message (marshal_exception (storage e)))
      ≡ some (received e)
unmarshal-marshal bus message e k = unmarshal-marshal_checked bus false message e k

-- In a build with assertions the client aborts on the provider's exception exactly if it is an
-- `UnauthorizedException` or a `QuotaException`.
pub unmarshal-marshal_aborts :
    (bus : DbusAccess) (message : Text) (e : StorageException)
    → IsKnown e
    → (unmarshal_error bus true (delivered message (marshal_exception (storage e))) ≡ none) ↔ (
        (client_type e ≡ StorageError.unauthorized) ⊎ (client_type e ≡ StorageError.quota_exceeded))
unmarshal-marshal_aborts bus message e k =
    rw (unmarshal-marshal_checked bus true message e k) (aborts (client_type e))
  where
    aborts :
        (t : ErrorType)
        → (checked true (is_admitted t) (received e) ≡ none)
          ↔ ((t ≡ StorageError.unauthorized) ⊎ (t ≡ StorageError.quota_exceeded))
    aborts t = ground arith

-- An exception of a class that a provider derives itself, whose type is none of the interface's
-- names, reaches the client as a `LocalCommsError` that quotes the type and the call's message, in
-- either build.
pub unmarshal-marshal_other :
    (bus : DbusAccess) (asserts : Bool) (message t m : Text)
    → find t exception_factories ≡ none
    → unmarshal_error bus asserts
        (delivered message (marshal_exception (storage (Exceptions.other t m))))
      ≡ some (record (error_of_type StorageError.local_comms_error) {
        message =
            text "unmarshal_exception(): unknown exception type received from server: "
            ++ (t ++ (text ": " ++ message));
      })
unfolding marshal_exception by_factory unknown_type StorageError.local_comms
unmarshal-marshal_other bus true message t m h = unmarshal-found bus true message t _ none h
unmarshal-marshal_other bus false message t m h = unmarshal-found bus false message t _ none h

-- The name that an error carries is its type's, for every type but `QuotaExceeded`, which goes by
-- the name "Unauthorized", and `Unauthorized`, which goes by the empty name.
pub error_of_type-name :
    (t : ErrorType)
    → (error_of_type t).name ≡ elim t [
      | StorageError.quota_exceeded ↦ text "Unauthorized"
      | StorageError.unauthorized ↦ []
      | other ↦ spelling other
    ]
unfolding error_of_type spelling
error_of_type-name StorageError.no_error = refl
error_of_type-name _ = refl
