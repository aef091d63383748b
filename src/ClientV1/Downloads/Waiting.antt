-- ===== src/ClientV1/Downloads/Waiting.antt =====
-- The constructor of `DownloaderImpl`, which waits until the worker has been initialised:
-- src/qt/client/internal/local_client/DownloaderImpl.cpp.
use storage_framework.Base.{
  ℕ, ◌+◌, Bool, true, false, not, ◌≡◌, refl, Option, none, some, List, [], ◌∷◌, length, arith,
  subst,
}
use storage_framework.Base.Text.{Text}
use storage_framework.Base.Int.{ℤ, pos, ◌-ℤ◌}
use storage_framework.ClientV1.Downloads.Runs.{
  Event, bytes_written, disconnected, socket_failed, finish, cancel, Session, with_worker, step,
  run,
}
use storage_framework.ClientV1.Downloads.{
  Channel, W, new_worker, finish_in, do_finish, do_cancel, handle_error, wrote, write_chunk,
  read_and_write_chunk, on_bytes_written, on_error, start_downloading, read_size,
}

module _ (c : Channel) (to_string : ℤ → Text) where
  abbrev Waits : Bool → Option (W c to_string) → Type 0
  Waits b none = Unit
  Waits b (some w) = w.waiting ≡ b

  abbrev SessionWaits : Bool → Option (Session c.State) → Type 0
  SessionWaits b none = Unit
  SessionWaits b (some s) = s.worker.waiting ≡ b

  do_finish-Waits : (w : W c to_string) → Waits w.waiting (do_finish c to_string w)
  unfolding do_finish finish_in
  do_finish-Waits w = ground arith

  handle_error-Waits :
      (msg : Text) (code : ℤ) (w : W c to_string)
      → Waits w.waiting (handle_error c to_string msg code w)
  unfolding handle_error do_finish finish_in
  handle_error-Waits msg code w = refl

  wrote-Waits : (r : ℤ) (n : ℕ) (w : W c to_string) → Waits w.waiting (wrote c to_string r n w)
  unfolding wrote
  wrote-Waits r n w = ground (arith, handle_error-Waits _ _ w)

  write_chunk-Waits :
      (r : Option (List ℕ)) (w : W c to_string) → Waits w.waiting (write_chunk c to_string r w)
  unfolding write_chunk handle_error do_finish finish_in
  write_chunk-Waits none w = refl
  write_chunk-Waits (some buf) w =
      wrote-Waits (c.write buf w.channel).0 (length buf)
        (record w { channel = (c.write buf w.channel).1 })

  read_and_write_chunk-Waits :
      (w : W c to_string) → Waits w.waiting (read_and_write_chunk c to_string w)
  unfolding read_and_write_chunk
  read_and_write_chunk-Waits w =
      write_chunk-Waits (c.read read_size w.channel).0
        (record w { channel = (c.read read_size w.channel).1 })

  on_bytes_written-Waits :
      (n : ℕ) (w : W c to_string) → Waits w.waiting (on_bytes_written c to_string n w)
  unfolding on_bytes_written
  on_bytes_written-Waits n w =
      ground (
        arith,
        read_and_write_chunk-Waits (record w { bytes_to_write = w.bytes_to_write -ℤ pos n }),
      )

  do_cancel-Waits : (w : W c to_string) → Waits w.waiting (do_cancel c to_string w)
  unfolding do_cancel do_finish finish_in
  do_cancel-Waits w = ground arith

  with_worker-Waits :
      (b : Bool) (n : ℕ) (m : Option (W c to_string))
      → Waits b m
      → SessionWaits b (with_worker c to_string n m)
  with_worker-Waits b n none k = tt
  with_worker-Waits b n (some w) k = k

  step-Waits :
      (e : Event) (s : Session c.State) → SessionWaits s.worker.waiting (step c to_string e s)
  unfolding step on_error
  step-Waits (bytes_written n) s = ground (
    arith,
    with_worker-Waits s.worker.waiting (s.signalled + n) (on_bytes_written c to_string n s.worker)
        (on_bytes_written-Waits n s.worker),
  )
  step-Waits disconnected s = ground (
    arith,
    with_worker-Waits s.worker.waiting s.signalled (do_finish c to_string s.worker)
        (do_finish-Waits s.worker),
  )
  step-Waits socket_failed s = ground (
    arith,
    with_worker-Waits s.worker.waiting s.signalled (on_error c to_string s.worker)
        (handle_error-Waits _ _ (record s.worker { connected = false })),
  )
  step-Waits finish s = ground (
    arith,
    with_worker-Waits s.worker.waiting s.signalled (do_finish c to_string s.worker)
        (do_finish-Waits s.worker),
  )
  step-Waits cancel s = ground (
    arith,
    with_worker-Waits s.worker.waiting s.signalled (do_cancel c to_string s.worker)
        (do_cancel-Waits s.worker),
  )

  run-Waits :
      (b : Bool) (es : List Event) (m : Option (Session c.State))
      → SessionWaits b m
      → SessionWaits b (run c to_string es m)
  unfolding run
  run-Waits b [] m k = k
  run-Waits b (e ∷ es) none k = k
  run-Waits b (e ∷ es) (some s) k =
      run-Waits b es (step c to_string e s)
        (subst (λ x. SessionWaits x (step c to_string e s)) k (step-Waits e s))

  start_downloading-Waits :
      (channel : c.State) (filename : Text)
      → Waits
          (not (c.open_file filename channel).0)
          (start_downloading c to_string (new_worker c to_string channel filename))
  unfolding start_downloading new_worker handle_error do_finish finish_in
  start_downloading-Waits channel filename =
      let r = c.open_file filename channel in
      ground (
        arith,
        read_and_write_chunk-Waits (record (new_worker c to_string channel filename) {
          channel = r.1;
          connected = true;
          file_open = true;
          bytes_to_write = pos (c.size r.1);
          waiting = false;
        }),
      )

  -- Where the file cannot be opened, nothing that happens to a download's worker later lets its
  -- constructor return; and where it can be opened, the constructor is released at once.
  pub run-start_downloading-waiting :
      (channel : c.State) (filename : Text) (es : List Event) (w : W c to_string)
      (s : Session c.State)
      → start_downloading c to_string (new_worker c to_string channel filename) ≡ some w
      → run c to_string es (some (record { worker = w; signalled = 0 })) ≡ some s
      → s.worker.waiting ≡ not (c.open_file filename channel).0
  run-start_downloading-waiting channel filename es w s e k =
      let b = not (c.open_file filename channel).0 in
      subst (SessionWaits b) k (
        run-Waits b es (some (record { worker = w; signalled = 0 }))
          (subst (Waits b) e (start_downloading-Waits channel filename)))
