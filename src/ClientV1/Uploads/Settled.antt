-- ===== src/ClientV1/Uploads/Settled.antt =====
-- Outcomes of uploads: src/qt/client/internal/local_client/UploaderImpl.cpp.
use storage_framework.Base.{
  ℕ, ◌+◌, Bool, true, false, ◌&&◌, ◌≡◌, refl, Option, none, some, List, [], ◌∷◌, ◌++◌, Bool-cases,
  inl, inr, arith, length,
}
use storage_framework.Base.Text.{Text, text}
use storage_framework.Base.Int.{ℤ, pos}
use storage_framework.ClientV1.Exceptions.{resource}
use storage_framework.ClientV1.Future.{exception, finished}
use storage_framework.ClientV1.Uploads.Finishing.{
  is_answered, answered-append, CreatesFiles, is_active, is_settled, Settles,
  quit_if_finished-Settles, do_finish-Settles,
}
use storage_framework.ClientV1.Uploads.Runs.{
  Event, bytes_ready, channel_finished, cancel, file_released, file_deleted, root_released, step,
  run,
}
use storage_framework.ClientV1.Uploads.{
  Host, FileObject, W, new_worker, start_uploading, ConflictPolicy, in_progress, error,
  on_bytes_ready, on_read_channel_finished, do_cancel, do_finish, finish_in, quit_if_finished,
  handle_error, fail_with, close_output, wrote, is_deleted,
}

-- The client has not deleted the file, nor let its root go.
abbrev pub is_kept : Event → Bool
is_kept file_deleted = false
is_kept root_released = false
is_kept _ = true

abbrev pub all_kept : List Event → Bool
all_kept [] = true
all_kept (e ∷ es) = is_kept e && all_kept es

module _ (h : Host) (to_string : ℤ → Text) (creates : CreatesFiles h) where
  -- After a failure the future is told a second time, and keeps its first outcome.
  finish_error-Settles :
      (w : W h to_string)
      → w.state ≡ error
      → is_answered w.reports ≡ true
      → Settles h to_string (do_finish h to_string w)
  unfolding do_finish finish_in
  finish_error-Settles w e a =
      quit_if_finished-Settles h to_string (finish_in h to_string w.state w) (
        ground (
          arith,
          answered-append w.reports (exception (resource w.error_msg w.error_code) ∷ finished ∷ [])
              a,
        ))

  -- A slot that has failed leaves the state `error`.
  Fails : Option (W h to_string) → Type 0
  Fails none = ⊥
  Fails (some w) =
      (is_settled h to_string w ≡ true)
      × (w.quit ≡ true → (w.state ≡ error) × (is_answered w.reports ≡ true))

  handle_error-Fails :
      (msg : Text) (code : ℤ) (w : W h to_string)
      → is_active h to_string w ≡ true
      → Fails (handle_error h to_string msg code w)
  unfolding handle_error close_output fail_with do_finish finish_in quit_if_finished Fails
  handle_error-Fails msg code w a = ground arith

  wrote-Fails :
      (r : ℤ) (n : ℕ) (w : W h to_string)
      → w.quit ≡ false
      → is_active h to_string w ≡ true
      → Fails (wrote h to_string r n w)
  unfolding wrote Fails
  wrote-Fails r n w q a = ground (
    arith,
    handle_error-Fails (text "socket error: " ++ (h.file_error w.host).1) (h.file_error w.host).0 w
        a,
    handle_error-Fails
        (text "write error, requested "
          ++ (to_string (pos n) ++ (text " B, but wrote only " ++ (h.appended r ++ text " B."))))
        (pos 0) w a,
  )

  on_bytes_ready-Fails :
      (w : W h to_string)
      → w.quit ≡ false
      → is_active h to_string w ≡ true
      → Fails (on_bytes_ready h to_string w)
  unfolding on_bytes_ready Fails
  on_bytes_ready-Fails w q a =
      let r = h.read_available w.host in
      let o = h.write r.0 r.1 in
      ground (
        arith,
        wrote-Fails o.0 (length r.0)
            (record w { host = o.1; bytes_read = w.bytes_read + length r.0 }) q a,
      )

  forget : (m : Option (W h to_string)) → Fails m → Settles h to_string m
  unfolding Fails
  forget none f = f
  forget (some w) f = f.0

  then_finish-Settles :
      (w : W h to_string) → Fails (some w) → Settles h to_string (do_finish h to_string w)
  unfolding Fails
  then_finish-Settles w f = elim (Bool-cases w.quit) [
    | inl q ↦ finish_error-Settles w (f.1 q).0 (f.1 q).1
    | inr q ↦ do_finish-Settles h to_string creates w (ground (arith, f.0))
  ]

  on_read_channel_finished-Settles :
      (w : W h to_string)
      → w.quit ≡ false
      → is_active h to_string w ≡ true
      → Settles h to_string (on_read_channel_finished h to_string w)
  unfolding on_read_channel_finished Fails
  on_read_channel_finished-Settles w q a =
      by_outcome (on_bytes_ready h to_string w) (on_bytes_ready-Fails w q a)
    where
      by_outcome :
          (m : Option (W h to_string))
          → Fails m
          → Settles h to_string (elim m [ none ↦ none | some v ↦ do_finish h to_string v ])
      by_outcome none f = absurd f
      by_outcome (some v) f = then_finish-Settles v f

  do_cancel-Settles :
      (w : W h to_string)
      → w.quit ≡ false
      → is_active h to_string w ≡ true
      → Settles h to_string (do_cancel h to_string w)
  unfolding do_cancel do_finish finish_in quit_if_finished
  do_cancel-Settles w q a = ground arith

  step-Settles :
      (e : Event) (w : W h to_string)
      → is_kept e ≡ true
      → is_settled h to_string w ≡ true
      → Settles h to_string (step h to_string e w)
  unfolding step is_deleted
  step-Settles bytes_ready w k s =
      ground (arith, forget (on_bytes_ready h to_string w), on_bytes_ready-Fails w)
  step-Settles channel_finished w k s = ground (arith, on_read_channel_finished-Settles w)
  step-Settles cancel w k s = ground (arith, do_cancel-Settles w)
  step-Settles file_released w k s = ground arith
  step-Settles file_deleted w k s = absurd (cc)
  step-Settles root_released w k s = absurd (cc)

  run-Settles :
      (es : List Event) (m : Option (W h to_string))
      → all_kept es ≡ true
      → Settles h to_string m
      → Settles h to_string (run h to_string es m)
  unfolding run
  run-Settles [] m k s = s
  run-Settles (e ∷ es) none k s = absurd s
  run-Settles (e ∷ es) (some w) k s =
      run-Settles es (step h to_string e w) (ground arith) (step-Settles e w (ground arith) s)

  start_uploading-active :
      (w v : W h to_string)
      → w.state ≡ in_progress
      → w.reports ≡ []
      → w.root ≡ true
      → is_deleted h to_string w.file ≡ false
      → w.quit ≡ false
      → start_uploading h to_string w ≡ some v
      → is_settled h to_string v ≡ true
  unfolding start_uploading handle_error close_output fail_with
  start_uploading-active w v p r o d q e = ground arith

  settles :
      (m : Option (W h to_string))
      → Settles h to_string m
      → (v : W h to_string) × (m ≡ some v) × (is_settled h to_string v ≡ true)
  settles none s = absurd s
  settles (some v) s = (v, refl, s)

  -- Once an upload has started, whatever the socket, the disk and the client do, no slot aborts, as
  -- long as the client neither deletes the file nor destroys the runtime, and files that were just
  -- created have canonical paths: after each series of events either the worker is in progress and
  -- nothing has been reported, or an outcome and then readiness was reported first, and the thread quits.
  pub run-start_uploading-settled :
      (host : h.State) (file : Option FileObject) (size : ℕ) (path : Text) (policy : ConflictPolicy)
      (w : W h to_string) (es : List Event)
      → is_deleted h to_string file ≡ false
      → start_uploading h to_string (new_worker host file size path policy true) ≡ some w
      → all_kept es ≡ true
      → (v : W h to_string) × (run h to_string es (some w) ≡ some v)
        × (is_settled h to_string v ≡ true)
  unfolding new_worker
  run-start_uploading-settled host file size path policy w es d e k =
      settles (run h to_string es (some w)) (
        run-Settles es (some w) k (
          start_uploading-active (new_worker host file size path policy true) w refl refl refl d
            refl e))
