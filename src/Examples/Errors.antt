-- ===== src/Examples/Errors.antt =====
-- An error on its way to the client.
use storage_framework.Base.{true, false, ◌≡◌, ◌↔◌, ◌⊎◌, none, some}
use storage_framework.Base.Text.{text}
use storage_framework.Errors.Exceptions.{StorageException, exists, quota, storage}
use storage_framework.Errors.Marshal.{marshal_exception}
use storage_framework.Errors.StorageError.{unauthorized, quota_exceeded, error_of_type}
use storage_framework.Errors.Unmarshal.{unmarshal_error}
use storage_framework.Errors.RoundTrip.{
  delivered, received, client_type, unmarshal-marshal, unmarshal-marshal_aborts, error_of_type-name,
}
use storage_framework.Examples.Models.{list_access}

abbrev taken : StorageException
taken = exists (text "exists already") (text "/root/a") (text "a")

unmarshal-marshal_example :
    unmarshal_error list_access false (delivered (text "m") (marshal_exception (storage taken)))
    ≡ some (received taken)
unmarshal-marshal_example = unmarshal-marshal list_access (text "m") taken tt

abbrev full : StorageException
full = quota (text "disk full")

unmarshal-marshal_aborts_example :
    (unmarshal_error list_access true (delivered (text "m") (marshal_exception (storage full)))
      ≡ none)
    ↔ ((client_type full ≡ unauthorized) ⊎ (client_type full ≡ quota_exceeded))
unmarshal-marshal_aborts_example = unmarshal-marshal_aborts list_access (text "m") full tt

error_of_type-name_example : (error_of_type quota_exceeded).name ≡ text "Unauthorized"
error_of_type-name_example = error_of_type-name quota_exceeded
