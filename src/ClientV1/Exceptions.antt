-- ===== src/ClientV1/Exceptions.antt =====
-- src/qt/client/Exceptions.cpp and include/unity/storage/qt/client/Exceptions.h.
use storage_framework.Base.{◌++◌}
use storage_framework.Base.Text.{Text, text}
use storage_framework.Base.Int.{ℤ}

-- `runtime_destroyed` has the name of a method, the others begin with their message.
pub data StorageException : Type 0 where
  local_comms : Text → StorageException
  remote_comms : Text → StorageException
  deleted : Text → Text → StorageException
  runtime_destroyed : Text → StorageException
  not_exists : Text → Text → StorageException
  exists : Text → Text → Text → StorageException
  conflict : Text → StorageException
  permission : Text → StorageException
  quota : Text → StorageException
  cancelled : Text → StorageException
  logic : Text → StorageException
  invalid_argument : Text → StorageException
  resource : Text → ℤ → StorageException

unfoldable pub exception_name : StorageException → Text
exception_name (local_comms m) = text "LocalCommsException"
exception_name (remote_comms m) = text "RemoteCommsException"
exception_name (deleted m i) = text "DeletedException"
exception_name (runtime_destroyed m) = text "RuntimeDestroyedException"
exception_name (not_exists m k) = text "NotExistsException"
exception_name (exists m i n) = text "ExistsException"
exception_name (conflict m) = text "ConflictException"
exception_name (permission m) = text "PermissionException"
exception_name (quota m) = text "QuotaException"
exception_name (cancelled m) = text "CancelledException"
exception_name (logic m) = text "LogicException"
exception_name (invalid_argument m) = text "InvalidArgumentException"
exception_name (resource m c) = text "ResourceException"

unfoldable pub error_message : StorageException → Text
error_message (local_comms m) = m
error_message (remote_comms m) = m
error_message (deleted m i) = m
error_message (runtime_destroyed m) = m ++ text ": runtime was destroyed previously"
error_message (not_exists m k) = m
error_message (exists m i n) = m
error_message (conflict m) = m
error_message (permission m) = m
error_message (quota m) = m
error_message (cancelled m) = m
error_message (logic m) = m
error_message (invalid_argument m) = m
error_message (resource m c) = m

unfoldable pub what : StorageException → Text
unfolding exception_name error_message
what e = exception_name e ++ text ": " ++ error_message e
