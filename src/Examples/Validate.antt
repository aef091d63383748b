-- ===== src/Examples/Validate.antt =====
-- The metadata of a file with a size and a time of modification.
use storage_framework.Base.{◌≡◌, ◌↔◌, none, [], ◌∷◌}
use storage_framework.Base.Text.{Text, text}
use storage_framework.Base.Int.{ℤ, pos}
use storage_framework.Client.Validate.{
  ItemMetadata, DateTime, zoned_date, file, string_value, long_long, validate,
}
use storage_framework.Client.Validate.Accepts.{IsWellFormed, validate-IsWellFormed}

abbrev pub parse : Text → DateTime
parse s = zoned_date

abbrev pub show : ℤ → Text
show n = text "n"

abbrev pub item : ItemMetadata
item = record {
  item_id = text "7";
  parent_ids = text "1" ∷ [];
  name = text "a.txt";
  etag = text "e";
  type = file;
  metadata =
      (text "last_modified_time", string_value (text "2016-09-09T09:00:00Z"))
      ∷ (text "size_in_bytes", long_long (pos 3))
      ∷ [];
}

validate-IsWellFormed_example :
    (validate parse show (text "list") item ≡ none) ↔ IsWellFormed parse show item
validate-IsWellFormed_example = validate-IsWellFormed parse show (text "list") item
