-- ===== src/Errors/Marshal.antt =====
-- `Handler::marshal_exception` of src/provider/internal/Handler.cpp.
use storage_framework.Base.{List, [], ◌∷◌, ◌++◌}
use storage_framework.Base.Text.{Text, text}
use storage_framework.Base.Int.{ℤ}
use storage_framework.Errors.Exceptions.{
  StorageException, not_exists, exists, resource, Thrown, storage, std_exception, foreign,
  exception_type, error_message,
}

-- The arguments of a D-Bus message that this code sends.
pub data Variant : Type 0 where
  str : Text → Variant
  int : ℤ → Variant

pub record ErrorReply : Type 0 where
  pub name : Text
  pub args : List Variant

abbrev pub dbus_error_prefix : Text
dbus_error_prefix = text "com.canonical.StorageFramework."

create_error_reply : Text → Text → ErrorReply
create_error_reply name message = record { name = name; args = str message ∷ [] }

-- The data members that the inner `catch` clauses append.
extra_arguments : StorageException → List Variant
extra_arguments (not_exists m key) = str key ∷ []
extra_arguments (exists m identity name) = str identity ∷ str name ∷ []
extra_arguments (resource m code) = int code ∷ []
extra_arguments _ = []

append_arguments : ErrorReply → List Variant → ErrorReply
append_arguments r extra = record r { args = r.args ++ extra }

unfoldable pub marshal_exception : Thrown → ErrorReply
unfolding create_error_reply extra_arguments append_arguments exception_type error_message
marshal_exception (storage e) =
    append_arguments (create_error_reply (dbus_error_prefix ++ exception_type e) (error_message e))
      (extra_arguments e)
marshal_exception (std_exception w) =
    create_error_reply (dbus_error_prefix ++ text "UnknownException")
      (text "unknown exception thrown by provider: " ++ w)
marshal_exception foreign =
    create_error_reply (dbus_error_prefix ++ text "UnknownException")
      (text "unknown exception thrown by provider")
