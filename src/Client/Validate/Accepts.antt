-- ===== src/Client/Validate/Accepts.antt =====
-- What metadata `validate` accepts: src/qt/internal/validate.cpp.
use storage_framework.Base.{
  subst, Bool, not, ◌&&◌, ◌||◌, ◌≡◌, ◌≢◌, ◌↔◌, refl, true, false, Option, none, some, List, [], ◌∷◌,
  is_empty, arith,
}
use storage_framework.Base.Text.{Text, text}
use storage_framework.Base.Int.{ℤ, pos, negsuc}
use storage_framework.Errors.StorageError.{StorageError, with_message, local_comms_error}
use storage_framework.Client.Validate.{
  prefix_of, ItemType, file, folder, root, MetadataType, non_zero_pos_int64, iso_8601_date_time,
  string, boolean, Variant, string_value, long_long, other, DateTime, invalid_date, local_date,
  zoned_date, ItemMetadata, known_type, contains, any_empty, is_root, is_file, throw_if,
  validate_type_and_value, validate_entries, validate_present, validate_metadata, validate,
  date_value, date_error, int_value,
}

module _ (parse_date : Text → DateTime) (number : ℤ → Text) where
  -- A value that fits the type of its key.
  abbrev pub Fits : Option MetadataType → Variant → Type 0
  Fits (some iso_8601_date_time) (string_value s) = parse_date s ≡ zoned_date
  Fits (some iso_8601_date_time) _ = ⊥
  Fits (some non_zero_pos_int64) (long_long (pos n)) = Unit
  Fits (some non_zero_pos_int64) _ = ⊥
  Fits _ _ = Unit

  abbrev pub AllFit : List (Text × Variant) → Type 0
  AllFit [] = Unit
  AllFit ((key, v) ∷ m) = Fits (known_type key) v × AllFit m

  -- The parents and names by the type of the item.
  abbrev pub IsPlaced : ItemMetadata → ItemType → Type 0
  IsPlaced md root = md.parent_ids ≡ []
  IsPlaced md folder = (md.parent_ids ≢ []) × ((any_empty md.parent_ids ≡ false) × (md.name ≢ []))
  IsPlaced md file =
      (md.parent_ids ≢ [])
      × ((any_empty md.parent_ids ≡ false)
          × ((md.name ≢ [])
              × ((md.etag ≢ [])
                  × ((contains (text "size_in_bytes") md.metadata ≡ true)
                      × (contains (text "last_modified_time") md.metadata ≡ true)))))

  -- What the client expects of an item.
  abbrev pub IsWellFormed : ItemMetadata → Type 0
  IsWellFormed md = (md.item_id ≢ []) × (IsPlaced md md.type × AllFit md.metadata)

  Fits-validated :
      (prefix key : Text) (v : Variant) (t : Option MetadataType)
      → (validate_type_and_value parse_date number prefix key v t ≡ none) ↔ Fits t v
  unfolding validate_type_and_value date_value date_error int_value throw_if
  Fits-validated prefix key v none = (λ h. tt, λ h. refl)
  Fits-validated prefix key v (some string) = (λ h. tt, λ h. refl)
  Fits-validated prefix key v (some boolean) = (λ h. tt, λ h. refl)
  Fits-validated prefix key (string_value s) (some iso_8601_date_time) = by_date (parse_date s)
    where
      by_date :
          (d : DateTime) → (date_error parse_date number prefix key s d ≡ none) ↔ (d ≡ zoned_date)
      by_date invalid_date = ground arith
      by_date local_date = ground arith
      by_date zoned_date = (λ h. refl, λ h. refl)
  Fits-validated prefix key (long_long n) (some iso_8601_date_time) = ground arith
  Fits-validated prefix key (other n) (some iso_8601_date_time) = ground arith
  Fits-validated prefix key (string_value s) (some non_zero_pos_int64) = ground arith
  Fits-validated prefix key (long_long (pos n)) (some non_zero_pos_int64) = (λ h. tt, λ h. refl)
  Fits-validated prefix key (long_long (negsuc n)) (some non_zero_pos_int64) = ground arith
  Fits-validated prefix key (other n) (some non_zero_pos_int64) = ground arith

  AllFit-validated :
      (prefix : Text) (m : List (Text × Variant))
      → (validate_entries parse_date number prefix m ≡ none) ↔ AllFit m
  unfolding validate_entries
  AllFit-validated prefix [] = (λ h. tt, λ h. refl)
  AllFit-validated prefix ((key, v) ∷ m) =
      ground (arith, Fits-validated prefix key v (known_type key), AllFit-validated prefix m)

  throw_if-none :
      (b : Bool) (message : Text) (rest : Option StorageError)
      → (throw_if b message rest ≡ none) ↔ ((b ≡ false) × (rest ≡ none))
  unfolding throw_if
  throw_if-none true message rest = ground arith
  throw_if-none false message rest = (λ h. (refl, h), λ h. h.1)

  metadata_validated :
      (prefix : Text) (md : ItemMetadata)
      → (validate_metadata parse_date number prefix md ≡ none) ↔ (
          AllFit md.metadata
          × (is_file md.type
                && (not (contains (text "size_in_bytes") md.metadata)
                    || not (contains (text "last_modified_time") md.metadata))
              ≡ false))
  unfolding validate_metadata validate_present throw_if
  metadata_validated prefix md = ground (arith, AllFit-validated prefix md.metadata)

  -- `validate` throws nothing exactly for metadata that is well-formed: it has an id; a root has no
  -- parents, and any other item has parents, with ids, and a name; a file has an ETag, a size and a time
  -- of modification; and the value of each known date key is a text with a date that has a time zone, that
  -- of each known number key an integer that is not negative. Any value will do for the keys whose type is
  -- a text or a Boolean, and for unknown keys.
  pub validate-IsWellFormed :
      (method : Text) (md : ItemMetadata)
      → (validate parse_date number method md ≡ none) ↔ IsWellFormed md
  unfolding validate throw_if
  validate-IsWellFormed method md =
      ground (arith, by_type md.type, metadata_validated (prefix_of parse_date number method md) md)
    where
      by_type :
          (t : ItemType)
          → IsPlaced md t ↔ (
              (not (is_root t) && is_empty md.parent_ids ≡ false)
              × ((not (is_root t) && any_empty md.parent_ids ≡ false)
                  × ((is_root t && not (is_empty md.parent_ids) ≡ false)
                      × ((not (is_root t) && is_empty md.name ≡ false)
                          × ((is_file t && is_empty md.etag ≡ false)
                              × (is_file t
                                    && (not (contains (text "size_in_bytes") md.metadata)
                                        || not (contains (text "last_modified_time") md.metadata))
                                  ≡ false))))))
      by_type file = ground arith
      by_type folder = ground arith
      by_type root = ground arith

  -- What is thrown is a LocalCommsError.
  abbrev IsLocal : Option StorageError → Type 0
  IsLocal none = Unit
  IsLocal (some e) = e.type ≡ local_comms_error

  value-IsLocal :
      (prefix key : Text) (v : Variant) (t : Option MetadataType)
      → IsLocal (validate_type_and_value parse_date number prefix key v t)
  unfolding validate_type_and_value date_value date_error int_value throw_if with_message
  value-IsLocal prefix key v none = tt
  value-IsLocal prefix key v (some string) = tt
  value-IsLocal prefix key v (some boolean) = tt
  value-IsLocal prefix key (string_value s) (some iso_8601_date_time) = by_date (parse_date s)
    where
      by_date : (d : DateTime) → IsLocal (date_error parse_date number prefix key s d)
      by_date invalid_date = refl
      by_date local_date = refl
      by_date zoned_date = tt
  value-IsLocal prefix key (long_long n) (some iso_8601_date_time) = refl
  value-IsLocal prefix key (other n) (some iso_8601_date_time) = refl
  value-IsLocal prefix key (string_value s) (some non_zero_pos_int64) = refl
  value-IsLocal prefix key (long_long (pos n)) (some non_zero_pos_int64) = tt
  value-IsLocal prefix key (long_long (negsuc n)) (some non_zero_pos_int64) = refl
  value-IsLocal prefix key (other n) (some non_zero_pos_int64) = refl

  or_else-IsLocal :
      (a b : Option StorageError)
      → IsLocal a
      → IsLocal b
      → IsLocal (elim a [ some e ↦ some e | none ↦ b ])
  or_else-IsLocal none b h k = k
  or_else-IsLocal (some e) b h k = h

  entries-IsLocal :
      (prefix : Text) (m : List (Text × Variant))
      → IsLocal (validate_entries parse_date number prefix m)
  unfolding validate_entries
  entries-IsLocal prefix [] = tt
  entries-IsLocal prefix ((key, v) ∷ m) =
      or_else-IsLocal _ _ (value-IsLocal prefix key v (known_type key)) (entries-IsLocal prefix m)

  present-IsLocal :
      (prefix : Text) (md : ItemMetadata) → IsLocal (validate_present parse_date number prefix md)
  unfolding validate_present throw_if with_message
  present-IsLocal prefix md = ground arith

  metadata-IsLocal :
      (prefix : Text) (md : ItemMetadata) (e : StorageError)
      → validate_metadata parse_date number prefix md ≡ some e
      → e.type ≡ local_comms_error
  unfolding validate_metadata
  metadata-IsLocal prefix md e h =
      subst IsLocal h
        (or_else-IsLocal _ _ (entries-IsLocal prefix md.metadata) (present-IsLocal prefix md))

  -- Whatever `validate` throws is a LocalCommsError.
  pub validate-local_comms_error :
      (method : Text) (md : ItemMetadata) (e : StorageError)
      → validate parse_date number method md ≡ some e
      → e.type ≡ local_comms_error
  unfolding validate throw_if with_message
  validate-local_comms_error method md e h =
      ground (arith, metadata-IsLocal (prefix_of parse_date number method md) md e)
