-- ===== src/Provider/Upload/Failure.antt =====
-- What a failed `finish` of a local upload leaves: src/local-provider/LocalUploadJob.cpp under
-- src/provider/internal/UploadJobImpl.cpp.
use storage_framework.Base.{true, ◌≡◌, ◌⊎◌, Option, some, List}
use storage_framework.Errors.Exceptions.{StorageException}
use storage_framework.Base.Text.{Text}
use storage_framework.Base.Int.{ℤ}
use storage_framework.Provider.Answer.{Answer, value, exception}
use storage_framework.Provider.Upload.{LocalUpload, Disk}

module _ (to_string : ℤ → Text) (filename : Text → Text) where
  module _ {Item : Type 0} where
    -- What a failed `finish` leaves in the item's place, from what was read.
    abbrev pub Leaves : Disk Item → StorageException → LocalUpload → LocalUpload → Type 0
    Leaves d e u v =
        ((v.linked ≡ u.linked) × (v.unlinked ≡ u.unlinked))
        ⊎ ((u.use_linkat ≡ true) × (d.link ≡ some e) × (v.linked ≡ u.linked) × (v.unlinked ≡ true))
        ⊎ ((d.item ≡ exception e) × (v.linked ≡ some u.file))

    abbrev LeavesAfter : Disk Item → LocalUpload → Answer Item × LocalUpload → Type 0
    LeavesAfter d u (value x, v) = Unit
    LeavesAfter d u (exception e, v) = Leaves d e u v
