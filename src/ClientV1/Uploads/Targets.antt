-- ===== src/ClientV1/Uploads/Targets.antt =====
-- The path and the announced size of an upload: src/qt/client/internal/local_client/UploaderImpl.cpp.
use storage_framework.Base.{
  subst, length, ◌+◌, ℕ, ◌≡◌, refl, Option, none, some, List, [], ◌∷◌, arith, false,
}
use storage_framework.Base.Text.{Text}
use storage_framework.Base.Int.{ℤ}
use storage_framework.ClientV1.Uploads.Runs.{
  Event, bytes_ready, channel_finished, cancel, file_released, file_deleted, root_released, slot,
  step, run,
}
use storage_framework.ClientV1.Uploads.{
  Host, W, start_uploading, State, in_progress, finalized, cancelled_, error, on_bytes_ready,
  on_read_channel_finished, do_cancel, do_finish, finish_in, quit_if_finished, handle_error,
  fail_with, close_output, wrote, finalize, create_target, close_created, make_file, flush_output,
  link_native, link_output, linked, succeed,
}

module _ (h : Host) (to_string : ℤ → Text) where
  abbrev pub IsFor : Text → ℕ → Option (W h to_string) → Type 0
  IsFor path size none = Unit
  IsFor path size (some v) = (v.path ≡ path) × (v.size ≡ size)

  flush_output-IsFor : (w : W h to_string) → IsFor w.path w.size (flush_output h to_string w)
  unfolding flush_output link_native link_output linked succeed
  flush_output-IsFor w = ground arith

  create_target-IsFor : (w : W h to_string) → IsFor w.path w.size (create_target h to_string w)
  unfolding create_target close_created make_file flush_output link_native link_output linked
      succeed
  create_target-IsFor w = ground arith

  finalize-IsFor : (w : W h to_string) → IsFor w.path w.size (finalize h to_string w)
  unfolding finalize
  finalize-IsFor w = ground (arith, flush_output-IsFor w, create_target-IsFor w)

  finish_in-IsFor :
      (s : State) (w : W h to_string) → IsFor w.path w.size (finish_in h to_string s w)
  unfolding finish_in
  finish_in-IsFor in_progress w = ground (arith, finalize-IsFor (record w { state = finalized }))
  finish_in-IsFor finalized w = tt
  finish_in-IsFor cancelled_ w = (refl, refl)
  finish_in-IsFor error w = (refl, refl)

  do_finish-IsFor : (w : W h to_string) → IsFor w.path w.size (do_finish h to_string w)
  unfolding do_finish quit_if_finished
  do_finish-IsFor w = ground (arith, finish_in-IsFor w.state w)

  handle_error-IsFor :
      (msg : Text) (code : ℤ) (w : W h to_string)
      → IsFor w.path w.size (handle_error h to_string msg code w)
  unfolding handle_error close_output fail_with do_finish finish_in quit_if_finished
  handle_error-IsFor msg code w = ground arith

  wrote-IsFor : (r : ℤ) (n : ℕ) (w : W h to_string) → IsFor w.path w.size (wrote h to_string r n w)
  unfolding wrote
  wrote-IsFor r n w = ground (arith, handle_error-IsFor _ _ w)

  on_bytes_ready-IsFor : (w : W h to_string) → IsFor w.path w.size (on_bytes_ready h to_string w)
  unfolding on_bytes_ready
  on_bytes_ready-IsFor w =
      let r = h.read_available w.host in
      let o = h.write r.0 r.1 in
      ground (
        arith,
        wrote-IsFor o.0 (length r.0)
            (record w { host = o.1; bytes_read = w.bytes_read + length r.0 }),
      )

  do_cancel-IsFor : (w : W h to_string) → IsFor w.path w.size (do_cancel h to_string w)
  unfolding do_cancel
  do_cancel-IsFor w =
      ground (arith, do_finish-IsFor (record w { socket_open = false; state = cancelled_ }))

  on_read_channel_finished-IsFor :
      (w : W h to_string) → IsFor w.path w.size (on_read_channel_finished h to_string w)
  unfolding on_read_channel_finished
  on_read_channel_finished-IsFor w =
      by_outcome (on_bytes_ready h to_string w) (on_bytes_ready-IsFor w)
    where
      by_outcome :
          (m : Option (W h to_string))
          → IsFor w.path w.size m
          → IsFor w.path w.size (elim m [ none ↦ none | some v ↦ do_finish h to_string v ])
      by_outcome none i = tt
      by_outcome (some v) i = ground (arith, do_finish-IsFor v, i)

  step-IsFor : (e : Event) (w : W h to_string) → IsFor w.path w.size (step h to_string e w)
  unfolding step slot
  step-IsFor bytes_ready w = ground (arith, on_bytes_ready-IsFor w)
  step-IsFor channel_finished w = ground (arith, on_read_channel_finished-IsFor w)
  step-IsFor cancel w = ground (arith, do_cancel-IsFor w)
  step-IsFor file_released w = (refl, refl)
  step-IsFor file_deleted w = (refl, refl)
  step-IsFor root_released w = (refl, refl)

  pub run-IsFor :
      (path : Text) (size : ℕ) (es : List Event) (m : Option (W h to_string))
      → IsFor path size m
      → IsFor path size (run h to_string es m)
  unfolding run
  run-IsFor path size [] m i = i
  run-IsFor path size (e ∷ es) none i = i
  run-IsFor path size (e ∷ es) (some w) i = run-IsFor path size es (step h to_string e w) (
      subst (λ p. IsFor p size (step h to_string e w)) i.0
        (subst (λ n. IsFor w.path n (step h to_string e w)) i.1 (step-IsFor e w)))

  pub start_uploading-IsFor :
      (w : W h to_string) → IsFor w.path w.size (start_uploading h to_string w)
  unfolding start_uploading
  start_uploading-IsFor w = ground (arith, handle_error-IsFor _ _ _)
