-- ===== src/Client/Uploader.antt =====
-- src/qt/internal/UploaderImpl.cpp.
pub mod Session
pub mod Lifecycle
pub mod Transfer
use storage_framework.Base.{
  ℕ, Bool, true, false, not, ◌||◌, ◌&&◌, ◌≡◌, Option, none, some, List, [], ◌∷◌, ◌++◌,
  if◌then◌else◌, length, is_empty, checked,
}
use storage_framework.Base.Text.{Text, text}
use storage_framework.Base.Int.{ℤ, pos, negsuc, ltb_ℤ, eqb_ℤ}
use storage_framework.Errors.StorageError
use storage_framework.Errors.StorageError.{
  StorageError, with_message, runtime_destroyed, local_comms_error, logic_error, default_error,
  error_string,
}
use storage_framework.Client.Socket.{Socket}

-- `failed` is `Uploader::Status::Error`.
pub data Status : Type 0 where
  loading ready cancelled finished failed : Status

-- What the object does to the outside, in order: a signal of the public instance, its error string,
-- and the two calls of the provider.
pub data Effect : Type 0 where
  status_changed : Status → Effect
  set_error_string : Text → Effect
  cancel_upload : Text → Effect
  finish_upload : Text → Effect

abbrev pub same : Status → Status → Bool
same loading loading = true
same ready ready = true
same cancelled cancelled = true
same finished finished = true
same failed failed = true
same _ _ = false

unfoldable pub destroyed : Text → StorageError
destroyed method =
    with_message runtime_destroyed (method ++ text ": Runtime was destroyed previously")

-- `Md` is the metadata of an item. Of the item that an uploader holds only this is read.
pub record Uploader (S Md : Type 0) : Type 0 where
  pub status : Status
  pub error : StorageError
  pub method : Text
  pub size_in_bytes : ℕ
  pub upload_id : Text
  pub fd : ℤ
  pub socket : S
  pub buffer : List ℕ
  pub finalizing : Bool
  pub item : Option Md
  pub effects : List Effect

module _ (qt : Socket) {Md : Type 0} where
  -- The two constructors, with what `make_job` adds: an uploader that starts with an error
  -- announces it from the event loop.
  unfoldable pub start : Text → ℕ → Uploader qt.State Md
  unfolding default_error
  start method size = record {
    status = loading;
    error = default_error;
    method = method;
    size_in_bytes = size;
    upload_id = [];
    fd = negsuc 0;
    socket = qt.unconnected;
    buffer = [];
    finalizing = false;
    item = none;
    effects = [];
  }

  unfoldable pub start_failed : StorageError → Uploader qt.State Md
  start_failed e = record {
    status = failed;
    error = e;
    method = [];
    size_in_bytes = 0;
    upload_id = [];
    fd = negsuc 0;
    socket = qt.unconnected;
    buffer = [];
    finalizing = false;
    item = none;
    effects = status_changed failed ∷ [];
  }

  -- `error_ = …; socket_.abort(); setErrorString(…); status_ = …; statusChanged(status_);`
  unfoldable pub fail : Uploader qt.State Md → StorageError → Text → Status → Uploader qt.State Md
  fail u e msg status = record u {
    error = e;
    socket = qt.abort u.socket;
    status = status;
    effects = u.effects ++ set_error_string msg ∷ status_changed status ∷ [];
  }

  -- The same without the socket and the error string.
  unfoldable pub fail_quietly : Uploader qt.State Md → StorageError → Uploader qt.State Md
  fail_quietly u e = record u {
    error = e;
    status = failed;
    effects = u.effects ++ status_changed failed ∷ [];
  }

  -- The return value is 0 or -1: the outer `bytes_written` is never assigned.
  unfoldable pub flush_buffer : Uploader qt.State Md → ℤ × Uploader qt.State Md
  flush_buffer u =
      if is_empty u.buffer
      then (pos 0, u)
      else let (n, s) = qt.write u.buffer u.socket in
        if eqb_ℤ n (pos (length u.buffer))
        then (pos 0, record u { socket = s; buffer = [] })
        else (negsuc 0, record u { socket = s })

  -- `process_reply` of the constructor. `runtime` says whether the runtime is there and valid.
  unfoldable pub process_reply : Uploader qt.State Md → Bool → Text → ℤ → Uploader qt.State Md
  unfolding fail destroyed flush_buffer with_message
  process_reply u runtime id fd =
      if not (same u.status loading)
      then u
      else if not runtime
      then fail u (destroyed u.method) (u.method ++ text ": Runtime was destroyed previously")
          failed
      else let v : Uploader qt.State Md = record u { upload_id = id; fd = fd } in
        let msg : Text = u.method ++ text ": invalid file descriptor returned by provider" in
        let w : Uploader qt.State Md =
          (flush_buffer (record v { socket = qt.set_descriptor fd v.socket })).1 in
        if ltb_ℤ fd (pos 0)
        then fail v (with_message local_comms_error msg) msg failed
        else record w { status = ready; effects = w.effects ++ status_changed ready ∷ [] }

  -- `process_error` of the constructor.
  unfoldable pub process_error : Uploader qt.State Md → StorageError → Uploader qt.State Md
  process_error u e = record u {
    error = e;
    status = failed;
    socket = qt.abort u.socket;
    effects = u.effects ++ set_error_string (error_string e) ∷ status_changed failed ∷ [];
  }

  unfoldable pub is_valid : Uploader qt.State Md → Bool
  is_valid u = not (same u.status failed) && not (same u.status cancelled)

  -- `item()`; a default-constructed `Item` is `none`.
  unfoldable pub item_of : Uploader qt.State Md → Option Md
  item_of u = if same u.status finished then u.item else none

  request_cancel : Uploader qt.State Md → Uploader qt.State Md
  request_cancel u =
      if is_empty u.upload_id
      then u
      else record u { effects = u.effects ++ cancel_upload u.upload_id ∷ [] }

  unfoldable pub cancel : Uploader qt.State Md → Bool → Uploader qt.State Md
  unfolding fail fail_quietly destroyed request_cancel with_message
  cancel u runtime =
      let msg : Text = text "Uploader::cancel(): upload was cancelled" in
      if same u.status failed || (same u.status finished || same u.status cancelled)
      then u
      else if not runtime
      then fail_quietly u (destroyed (text "Uploader::cancel()"))
      else fail (request_cancel u) (with_message StorageError.cancelled msg) msg cancelled

  -- The destructor. The effects of the object end with it.
  unfoldable pub destroy : Uploader qt.State Md → Bool → Uploader qt.State Md
  unfolding cancel
  destroy u runtime = if same u.status ready then cancel u runtime else u

  unfoldable pub close : Uploader qt.State Md → Bool → Uploader qt.State Md
  unfolding fail fail_quietly destroyed flush_buffer with_message
  close u runtime =
      let msg : Text =
        text "Uploader::close(): cannot finalize while Uploader is not in the Ready state" in
      let v : Uploader qt.State Md = (flush_buffer (record u { finalizing = true })).1 in
      if same u.status failed || (same u.status cancelled || u.finalizing)
      then u
      else if not (same u.status ready)
      then fail u (with_message logic_error msg) msg failed
      else if not runtime
      then fail_quietly u (destroyed (text "Uploader::close()"))
      else record v {
        socket = qt.disconnect_from_server v.socket;
        effects = v.effects ++ finish_upload v.upload_id ∷ [];
      }

  finish_item : Uploader qt.State Md → Md → Option StorageError → Uploader qt.State Md
  finish_item u md none = record u {
    item = some md;
    status = finished;
    effects = u.effects ++ status_changed finished ∷ [];
  }
  finish_item u md (some e) = record u {
    error = e;
    status = failed;
    effects = u.effects ++ status_changed failed ∷ [];
  }

  -- `process_reply` of `close`. `validate` gives the error that it throws.
  unfoldable pub finish_reply :
      (Md → Option StorageError) → Uploader qt.State Md → Bool → Md → Uploader qt.State Md
  unfolding fail destroyed finish_item with_message
  finish_reply validate u runtime md =
      if same u.status cancelled || same u.status failed
      then u
      else if not runtime
      then fail u (destroyed (text "Uploader::close()"))
          (text "Uploader::close(): Runtime was destroyed previously") failed
      else finish_item u md (validate md)

  -- `process_error` of `close`.
  unfoldable pub finish_error : Uploader qt.State Md → StorageError → Uploader qt.State Md
  unfolding fail
  finish_error u e = if not (same u.status ready) then u else fail u e (error_string e) failed

  -- `writeData`: the number of bytes taken, or -1.
  write_by_status : Status → Uploader qt.State Md → List ℕ → ℤ × Uploader qt.State Md
  unfolding flush_buffer
  write_by_status loading u d = (pos (length d), record u { buffer = u.buffer ++ d })
  write_by_status ready u d =
      let (flushed, v) = flush_buffer u in
      let (n, s) = qt.write d v.socket in
      if eqb_ℤ flushed (negsuc 0) then (negsuc 0, v) else (n, record v { socket = s })
  write_by_status _ u d = (negsuc 0, u)

  unfoldable pub write_data : Uploader qt.State Md → List ℕ → ℤ × Uploader qt.State Md
  unfolding write_by_status
  write_data u d = write_by_status u.status u d
