-- ===== src/Errors/Exceptions.antt =====
-- src/provider/Exceptions.cpp and include/unity/storage/provider/Exceptions.h.
use storage_framework.Base.{◌++◌}
use storage_framework.Base.Text.{Text, text}
use storage_framework.Base.Int.{ℤ}

-- The exception classes. `other` is a subclass that a provider derives itself from the base class.
pub data StorageException : Type 0 where
  remote_comms : Text → StorageException
  not_exists : Text → Text → StorageException
  exists : Text → Text → Text → StorageException
  conflict : Text → StorageException
  unauthorized : Text → StorageException
  permission : Text → StorageException
  quota : Text → StorageException
  cancelled : Text → StorageException
  logic : Text → StorageException
  invalid_argument : Text → StorageException
  resource : Text → ℤ → StorageException
  unknown : Text → StorageException
  other : Text → Text → StorageException

-- The first argument that each constructor passes to `StorageException`.
unfoldable pub exception_type : StorageException → Text
exception_type (remote_comms m) = text "RemoteCommsException"
exception_type (not_exists m k) = text "NotExistsException"
exception_type (exists m i n) = text "ExistsException"
exception_type (conflict m) = text "ConflictException"
exception_type (unauthorized m) = text "UnauthorizedException"
exception_type (permission m) = text "PermissionException"
exception_type (quota m) = text "QuotaException"
exception_type (cancelled m) = text "CancelledException"
exception_type (logic m) = text "LogicException"
exception_type (invalid_argument m) = text "InvalidArgumentException"
exception_type (resource m c) = text "ResourceException"
exception_type (unknown m) = text "UnknownException"
exception_type (other t m) = t

unfoldable pub error_message : StorageException → Text
error_message (remote_comms m) = m
error_message (not_exists m k) = m
error_message (exists m i n) = m
error_message (conflict m) = m
error_message (unauthorized m) = m
error_message (permission m) = m
error_message (quota m) = m
error_message (cancelled m) = m
error_message (logic m) = m
error_message (invalid_argument m) = m
error_message (resource m c) = m
error_message (unknown m) = m
error_message (other t m) = m

unfoldable pub what : StorageException → Text
unfolding exception_type error_message
what e = exception_type e ++ text ": " ++ error_message e

-- What an exception pointer can hold: one of ours, another `std::exception` with its `what()`, or
-- a value of another type.
pub data Thrown : Type 0 where
  storage : StorageException → Thrown
  std_exception : Text → Thrown
  foreign : Thrown
