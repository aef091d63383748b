-- ===== src/Examples/Upload.antt =====
-- Uploads of the local provider to a disk on which every call succeeds, and to one that cannot link.
use storage_framework.Base.{
  List, ℕ, ◌<◌, ◌+◌, true, false, ◌≡◌, ◌≢◌, refl, ◌⊎◌, ◌↔◌, none, some, [], ◌∷◌, ◌++◌, length,
  is_empty, arith, if◌then◌else◌,
}
use storage_framework.Base.Text.{Text, text, text_eq}
use storage_framework.Base.Int.{ℤ, pos, negsuc}
use storage_framework.Errors.Exceptions.{StorageException, resource}
use storage_framework.Provider.Answer.{value}
use storage_framework.Provider.Completion.{Completion}
use storage_framework.Provider.Upload.{
  LocalUpload, in_progress, finished, Written, Disk, finish_upload, own_finish,
}
use storage_framework.Provider.Upload.Outcome.{
  IsUnderway, finish_upload-value, finish_upload_guarded, finish_upload_negative,
}
use storage_framework.Provider.Upload.Deadlock.{finish_upload-none}

abbrev show : ℤ → Text
show n = text "n"

abbrev basename : Text → Text
basename path = path

abbrev settled_not : Completion
settled_not = record {
  id = text "1";
  read_socket = pos 5;
  write_socket = negsuc 0;
  closed = [];
  completed = false;
  failure = none;
  locked = false;
}

-- Two of three bytes have been written; the item has the ETag "9".
abbrev underway : LocalUpload
underway = record {
  base = settled_not;
  size = pos 3;
  bytes_to_write = pos 1;
  method = text "update";
  state = in_progress;
  item_id = text "/a";
  old_etag = text "9";
  parent_id = [];
  allow_overwrite = false;
  use_linkat = true;
  file = 10 ∷ 11 ∷ [];
  file_open = true;
  unlinked = false;
  linked = none;
  tmp_removed = false;
}

underway-IsUnderway : IsUnderway 3 underway
underway-IsUnderway = record {
  announced = refl;
  in_progress = refl;
  not_completed = refl;
  not_locked = refl;
  within = ground arith;
  accounted = refl;
}

abbrev written : Written
written = record { count = pos 1; file_error = pos 0; error_text = [] }

abbrev good_disk : Disk ℕ
good_disk = record {
  item_exists = value true;
  item_is_file = value true;
  mtime = value (text "9");
  flush = none;
  link = none;
  rename = none;
  item = value 42;
}

abbrev cannot_link : StorageException
cannot_link = resource (text "linkat") (pos 13)

abbrev bad_disk : Disk ℕ
bad_disk = record good_disk { link = some cannot_link }

-- What `finish` leaves on each of the disks.
abbrev held : LocalUpload
held = record underway {
  bytes_to_write = pos 0;
  state = finished;
  file = 10 ∷ 11 ∷ 12 ∷ [];
  unlinked = true;
}

abbrev done : LocalUpload
done = record held { linked = some (10 ∷ 11 ∷ 12 ∷ []); file_open = false }

finishes_well :
    finish_upload show basename 0 (12 ∷ []) written good_disk underway ≡ some (value 42, done)
unfolding finish_upload own_finish text_eq
finishes_well = refl

finish_upload-value_example :
    (done.linked ≡ some (underway.file ++ (12 ∷ [])))
    × (pos (length (underway.file ++ (12 ∷ []))) ≡ underway.size)
    × (good_disk.flush ≡ none)
    × ((if underway.use_linkat then good_disk.link else good_disk.rename) ≡ none)
    × (good_disk.item ≡ value 42)
    × (done.state ≡ finished)
    × (done.base.locked ≡ false)
finish_upload-value_example =
    finish_upload-value show basename 0 42 (12 ∷ []) written good_disk underway done 3
      underway-IsUnderway finishes_well

finish_upload_guarded_example :
    (is_empty underway.parent_id ≡ false
      → (underway.allow_overwrite ≡ true) ⊎ (good_disk.item_exists ≡ value false))
    × (is_empty underway.parent_id ≡ true
        → is_empty underway.old_etag ≡ false
        → good_disk.mtime ≡ value underway.old_etag)
finish_upload_guarded_example =
    finish_upload_guarded show basename 0 42 (12 ∷ []) written good_disk underway done 3
      underway-IsUnderway finishes_well

abbrev extra : List ℕ
extra = 12 ∷ []

finish_upload-none_example :
    (finish_upload show basename 0 extra written good_disk underway ≡ none)
    ↔ (3 < length underway.file + length extra)
finish_upload-none_example =
    finish_upload-none show basename 0 extra written good_disk underway 3 underway-IsUnderway refl

-- The announced size is -1.
abbrev endless : LocalUpload
endless = record underway { size = negsuc 0; bytes_to_write = negsuc 0; file = [] }

finish_upload_negative_example :
    (finish_upload show basename 0 extra written good_disk endless ≢ none)
    × ((item : ℕ) (v : LocalUpload)
        → finish_upload show basename 0 extra written good_disk endless ≡ some (value item, v)
        → v.linked ≡ some [])
finish_upload_negative_example =
    finish_upload_negative show basename 0 extra written good_disk endless 0 refl refl refl
