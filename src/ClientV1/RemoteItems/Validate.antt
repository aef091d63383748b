-- ===== src/ClientV1/RemoteItems/Validate.antt =====
-- src/qt/client/internal/remote_client/validate.cpp.
use storage_framework.Base.{
  Bool, not, ◌&&◌, Option, none, some, List, [], ◌∷◌, ◌++◌, if◌then◌else◌, is_empty,
}
use storage_framework.Base.Text.{Text, text}
use storage_framework.Client.Validate.{
  MetadataType, non_zero_pos_int64, iso_8601_date_time, string, boolean, Variant, string_value,
  long_long, DateTime, invalid_date, local_date, zoned_date, ItemMetadata, known_type, contains,
  is_root, is_file, any_empty, type_name,
}
use storage_framework.ClientV1.Exceptions.{StorageException, local_comms}

abbrev pub throws_if : Bool → Text → Option StorageException → Option StorageException
throws_if b message rest = if b then some (local_comms message) else rest

module _ (parse_date : Text → DateTime) where
  unfoldable pub date_error : Text → Text → Text → DateTime → Option StorageException
  date_error prefix key value invalid_date = some (
      local_comms (
        prefix
        ++ (key ++ (text ": value \"" ++ (value ++ text "\" does not parse as ISO-8601 date")))))
  date_error prefix key value local_date = some (
      local_comms (
        prefix
        ++ (key ++ (text ": value \"" ++ (value ++ text "\" lacks a time zone specification")))))
  date_error prefix key value zoned_date = none

  unfoldable pub date_value : Text → Text → Variant → Option StorageException
  unfolding date_error
  date_value prefix key (string_value s) = date_error prefix key s (parse_date s)
  date_value prefix key v = some (
      local_comms (
        prefix
        ++ (key
            ++ (text ": expected value of type String,  but received value of type "
                ++ type_name v))))

  unfoldable pub int_value : Text → Text → Variant → Option StorageException
  int_value prefix key (long_long n) = none
  int_value prefix key v = some (
      local_comms (
        prefix
        ++ (key
            ++ (text ": expected value of type LongLong,  but received value of type "
                ++ type_name v))))

  -- A key that is not known is only logged.
  unfoldable pub validate_type_and_value :
      Text → Text → Variant → Option MetadataType → Option StorageException
  unfolding date_value int_value
  validate_type_and_value prefix key v none = none
  validate_type_and_value prefix key v (some iso_8601_date_time) = date_value prefix key v
  validate_type_and_value prefix key v (some non_zero_pos_int64) = int_value prefix key v
  validate_type_and_value prefix key v (some string) = none
  validate_type_and_value prefix key v (some boolean) = none

  unfoldable pub validate_entries : Text → List (Text × Variant) → Option StorageException
  validate_entries prefix [] = none
  validate_entries prefix ((key, v) ∷ m) =
      let rest = validate_entries prefix m in
      elim (validate_type_and_value prefix key v (known_type key)) [ some e ↦ some e | none ↦ rest ]

  missing : Text → Text → ItemMetadata → Text
  missing prefix key md =
      prefix ++ (text "missing key " ++ (key ++ (text " in metadata for " ++ md.item_id)))

  unfoldable pub validate_present : Text → ItemMetadata → Option StorageException
  unfolding missing
  validate_present prefix md =
      throws_if (is_file md.type && not (contains (text "size_in_bytes") md.metadata))
        (missing prefix (text "size_in_bytes") md)
        (throws_if (is_file md.type && not (contains (text "last_modified_time") md.metadata))
          (missing prefix (text "last_modified_time") md) none)

  unfoldable pub validate_metadata : Text → ItemMetadata → Option StorageException
  validate_metadata prefix md = elim (validate_entries prefix md.metadata) [
    | some e ↦ some e
    | none ↦ validate_present prefix md
  ]

  -- The exception that `validate` throws, if any.
  unfoldable pub validate : Text → ItemMetadata → Option StorageException
  unfolding validate_metadata
  validate method md =
      let prefix : Text = method ++ text ": received invalid metadata from server: " in
      throws_if (is_empty md.item_id) (prefix ++ text "item_id cannot be empty") (
        throws_if (not (is_root md.type) && is_empty md.parent_ids)
          (prefix ++ text "file or folder must have at least one parent ID")
          (throws_if (not (is_root md.type) && any_empty md.parent_ids)
            (prefix ++ text "parent_id of file or folder cannot be empty")
            (throws_if (is_root md.type && not (is_empty md.parent_ids))
              (prefix ++ text "metadata: parent_ids of root must be empty")
              (throws_if (is_empty md.name) (prefix ++ text "name cannot be empty") (
                throws_if (is_file md.type && is_empty md.etag)
                  (prefix ++ text "etag of file cannot be empty") (validate_metadata prefix md))))))
