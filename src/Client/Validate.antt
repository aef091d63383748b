-- ===== src/Client/Validate.antt =====
-- src/qt/internal/validate.cpp: the checks of the metadata that a provider sends.
pub mod Accepts
pub use storage_framework.Base.Common.{ItemType, file, folder, root}
use storage_framework.Base.{
  ℕ, Bool, true, false, not, ◌&&◌, ◌||◌, ◌≡◌, Option, none, some, List, [], ◌∷◌, ◌++◌,
  if◌then◌else◌, is_empty,
}
use storage_framework.Base.Text.{Text, text, text_eq}
use storage_framework.Base.Int.{ℤ, pos, negsuc}
use storage_framework.Errors.StorageError.{StorageError, with_message, local_comms_error}

pub data MetadataType : Type 0 where
  non_zero_pos_int64 iso_8601_date_time string boolean : MetadataType

-- A `QVariant`, any other type by its name.
pub data Variant : Type 0 where
  string_value : Text → Variant
  long_long : ℤ → Variant
  other : Text → Variant

-- What `QDateTime::fromString` gives: no date, one in local time, or one with a time zone.
pub data DateTime : Type 0 where
  invalid_date local_date zoned_date : DateTime

pub record ItemMetadata : Type 0 where
  pub item_id : Text
  pub parent_ids : List Text
  pub name : Text
  pub etag : Text
  pub type : ItemType
  pub metadata : List (Text × Variant)

known_metadata : List (Text × MetadataType)
known_metadata =
    (text "size_in_bytes", non_zero_pos_int64)
    ∷ (text "creation_time", iso_8601_date_time)
    ∷ (text "last_modified_time", iso_8601_date_time)
    ∷ (text "child_count", non_zero_pos_int64)
    ∷ (text "description", string)
    ∷ (text "display_name", string)
    ∷ (text "free_space_bytes", non_zero_pos_int64)
    ∷ (text "used_space_bytes", non_zero_pos_int64)
    ∷ (text "content_type", string)
    ∷ (text "writable", boolean)
    ∷ (text "md5", string)
    ∷ (text "download_url", string)
    ∷ []

find : {V : Type 0} → Text → List (Text × V) → Option V
find key [] = none
find key ((k, v) ∷ m) = if text_eq k key then some v else find key m

unfoldable pub known_type : Text → Option MetadataType
unfolding known_metadata find
known_type key = find key known_metadata

unfoldable pub contains : {V : Type 0} → Text → List (Text × V) → Bool
contains key [] = false
contains key ((k, v) ∷ m) = text_eq k key || contains key m

abbrev pub is_root : ItemType → Bool
is_root root = true
is_root _ = false

abbrev pub is_file : ItemType → Bool
is_file file = true
is_file _ = false

unfoldable pub any_empty : List Text → Bool
any_empty [] = false
any_empty (id ∷ ids) = is_empty id || any_empty ids

abbrev pub type_name : Variant → Text
type_name (string_value s) = text "QString"
type_name (long_long n) = text "qlonglong"
type_name (other t) = t

-- `throw local_comms_error(...)` under a condition; what comes after is done if nothing is thrown.
unfoldable pub throw_if : Bool → Text → Option StorageError → Option StorageError
throw_if b message rest = if b then some (with_message local_comms_error message) else rest

-- `QDateTime::fromString` with `Qt::ISODate`, and `QString::number`.
module _ (parse_date : Text → DateTime) (number : ℤ → Text) where
  unfoldable pub date_error : Text → Text → Text → DateTime → Option StorageError
  unfolding throw_if
  date_error prefix key value invalid_date =
      throw_if true
        (prefix
          ++ (key ++ (text ": value \"" ++ (value ++ text "\" does not parse as ISO-8601 date"))))
        none
  date_error prefix key value local_date =
      throw_if true
        (prefix
          ++ (key ++ (text ": value \"" ++ (value ++ text "\" lacks a time zone specification"))))
        none
  date_error prefix key value zoned_date = none

  unfoldable pub date_value : Text → Text → Variant → Option StorageError
  unfolding date_error throw_if
  date_value prefix key (string_value s) = date_error prefix key s (parse_date s)
  date_value prefix key v =
      throw_if true
        (prefix
          ++ (key
              ++ (text ": expected value of type QString, but received value of type "
                  ++ type_name v)))
        none

  unfoldable pub int_value : Text → Text → Variant → Option StorageError
  unfolding throw_if
  int_value prefix key (long_long (pos n)) = none
  int_value prefix key (long_long (negsuc n)) =
      throw_if true
        (prefix ++ (key ++ (text ": expected value >= 0, but received " ++ number (negsuc n)))) none
  int_value prefix key v =
      throw_if true
        (prefix
          ++ (key
              ++ (text ": expected value of type qlonglong, but received value of type "
                  ++ type_name v)))
        none

  -- A key that is not known is only logged.
  unfoldable pub validate_type_and_value :
      Text → Text → Variant → Option MetadataType → Option StorageError
  unfolding date_value int_value
  validate_type_and_value prefix key v none = none
  validate_type_and_value prefix key v (some iso_8601_date_time) = date_value prefix key v
  validate_type_and_value prefix key v (some non_zero_pos_int64) = int_value prefix key v
  validate_type_and_value prefix key v (some string) = none
  validate_type_and_value prefix key v (some boolean) = none

  unfoldable pub validate_entries : Text → List (Text × Variant) → Option StorageError
  validate_entries prefix [] = none
  validate_entries prefix ((key, v) ∷ m) =
      let rest = validate_entries prefix m in
      elim (validate_type_and_value prefix key v (known_type key)) [ some e ↦ some e | none ↦ rest ]

  -- The check of the mandatory fields at the end.
  unfoldable pub validate_present : Text → ItemMetadata → Option StorageError
  unfolding throw_if
  validate_present prefix md =
      throw_if
        (is_file md.type
          && (not (contains (text "size_in_bytes") md.metadata)
              || not (contains (text "last_modified_time") md.metadata)))
        (prefix ++ text "missing key \"size_in_bytes\" in metadata") none

  pub prefix_of : Text → ItemMetadata → Text
  prefix_of method md =
      method
      ++ (text ": received invalid metadata from provider"
          ++ (if is_empty md.item_id
              then text ": "
              else text " (id = " ++ (md.item_id ++ text "): ")))

  -- The entries, and then the mandatory ones.
  unfoldable pub validate_metadata : Text → ItemMetadata → Option StorageError
  validate_metadata prefix md = elim (validate_entries prefix md.metadata) [
    | some e ↦ some e
    | none ↦ validate_present prefix md
  ]

  -- The error that `validate` throws, if any.
  unfoldable pub validate : Text → ItemMetadata → Option StorageError
  unfolding throw_if prefix_of validate_metadata
  validate method md =
      let prefix : Text = prefix_of method md in
      throw_if (is_empty md.item_id) (prefix ++ text "item_id cannot be empty") (
        throw_if (not (is_root md.type) && is_empty md.parent_ids)
          (prefix ++ text "file or folder must have at least one parent ID")
          (throw_if (not (is_root md.type) && any_empty md.parent_ids)
            (prefix ++ text "parent_id of file or folder cannot be empty")
            (throw_if (is_root md.type && not (is_empty md.parent_ids))
              (prefix ++ text "parent_ids of root must be empty")
              (throw_if (not (is_root md.type) && is_empty md.name)
                (prefix ++ text "name cannot be empty")
                (throw_if (is_file md.type && is_empty md.etag)
                  (prefix ++ text "etag of a file cannot be empty")
                  (validate_metadata prefix md))))))
