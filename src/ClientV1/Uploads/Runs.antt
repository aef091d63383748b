-- ===== src/ClientV1/Uploads/Runs.antt =====
-- What happens to the worker of an upload: src/qt/client/internal/local_client/UploaderImpl.cpp. A slot
-- runs only until its thread's event loop is told to quit.
use storage_framework.Base.{true, false, Option, none, some, List, [], ◌∷◌}
use storage_framework.Base.Text.{Text}
use storage_framework.Base.Int.{ℤ}
use storage_framework.ClientV1.Uploads.{
  Host, FileObject, W, on_bytes_ready, on_read_channel_finished, do_cancel,
}

-- The first three call slots, the others are what the client does meanwhile to its objects.
pub data Event : Type 0 where
  bytes_ready channel_finished cancel file_released file_deleted root_released : Event

abbrev pub deleted_object : Option FileObject → Option FileObject
deleted_object none = none
deleted_object (some f) = some (record f { deleted = true })

module _ (h : Host) (to_string : ℤ → Text) where
  unfoldable pub slot :
      (W h to_string → Option (W h to_string)) → W h to_string → Option (W h to_string)
  slot f w = elim w.quit [ true ↦ some w | false ↦ f w ]

  unfoldable pub step : Event → W h to_string → Option (W h to_string)
  unfolding slot
  step bytes_ready w = slot (on_bytes_ready h to_string) w
  step channel_finished w = slot (on_read_channel_finished h to_string) w
  step cancel w = slot (do_cancel h to_string) w
  step file_released w = some (record w { file = none })
  step file_deleted w = some (record w { file = deleted_object w.file })
  step root_released w = some (record w { root = false })

  unfoldable pub run : List Event → Option (W h to_string) → Option (W h to_string)
  run [] m = m
  run (e ∷ es) none = none
  run (e ∷ es) (some w) = run es (step e w)
