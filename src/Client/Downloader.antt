-- ===== src/Client/Downloader.antt =====
-- src/qt/internal/DownloaderImpl.cpp.
pub mod Lifecycle
use storage_framework.Base.{
  Bool, true, false, not, ◌||◌, ◌&&◌, ◌≡◌, Option, none, some, List, [], ◌∷◌, ◌++◌, if◌then◌else◌,
}
use storage_framework.Base.Text.{Text, text}
use storage_framework.Base.Int.{ℤ, pos, negsuc, ltb_ℤ}
use storage_framework.Errors.StorageError
use storage_framework.Errors.StorageError.{
  StorageError, with_message, runtime_destroyed, local_comms_error, logic_error, default_error,
  error_string,
}
use storage_framework.Client.Socket.{Socket}

-- `failed` is `Downloader::Status::Error`.
pub data Status : Type 0 where
  loading ready cancelled finished failed : Status

-- What the object does to the outside, in order. There is no call of `CancelDownload`.
pub data Effect : Type 0 where
  status_changed : Status → Effect
  set_error_string : Text → Effect
  finish_download : Text → Effect

abbrev pub same : Status → Status → Bool
same loading loading = true
same ready ready = true
same cancelled cancelled = true
same finished finished = true
same failed failed = true
same _ _ = false

unfoldable pub destroyed : Text → StorageError
destroyed method =
    with_message runtime_destroyed (method ++ text ": Runtime was destroyed previously")

-- `It` is the item that is downloaded.
pub record Downloader (S It : Type 0) : Type 0 where
  pub status : Status
  pub error : StorageError
  pub method : Text
  pub download_id : Text
  pub fd : ℤ
  pub socket : S
  pub finalizing : Bool
  pub item : Option It
  pub effects : List Effect

module _ (qt : Socket) {It : Type 0} where
  -- The two constructors, with what `make_job` adds: a downloader that starts with an error
  -- announces it from the event loop.
  unfoldable pub start : Text → It → Downloader qt.State It
  unfolding default_error
  start method item = record {
    status = loading;
    error = default_error;
    method = method;
    download_id = [];
    fd = negsuc 0;
    socket = qt.unconnected;
    finalizing = false;
    item = some item;
    effects = [];
  }

  unfoldable pub start_failed : StorageError → Downloader qt.State It
  start_failed e = record {
    status = failed;
    error = e;
    method = [];
    download_id = [];
    fd = negsuc 0;
    socket = qt.unconnected;
    finalizing = false;
    item = none;
    effects = status_changed failed ∷ [];
  }

  unfoldable pub fail :
      Downloader qt.State It → StorageError → Text → Status → Downloader qt.State It
  fail u e msg status = record u {
    error = e;
    socket = qt.abort u.socket;
    status = status;
    effects = u.effects ++ set_error_string msg ∷ status_changed status ∷ [];
  }

  unfoldable pub fail_quietly : Downloader qt.State It → StorageError → Downloader qt.State It
  fail_quietly u e = record u {
    error = e;
    status = failed;
    effects = u.effects ++ status_changed failed ∷ [];
  }

  -- `process_reply` of the constructor. `runtime` says whether the runtime is there and valid.
  unfoldable pub process_reply : Downloader qt.State It → Bool → Text → ℤ → Downloader qt.State It
  unfolding fail destroyed with_message
  process_reply u runtime id fd =
      if not (same u.status loading)
      then u
      else if not runtime
      then fail u (destroyed u.method) (u.method ++ text ": Runtime was destroyed previously")
          failed
      else let v : Downloader qt.State It = record u { download_id = id; fd = fd } in
        let msg : Text = u.method ++ text ": invalid file descriptor returned by provider" in
        if ltb_ℤ fd (pos 0)
        then fail v (with_message local_comms_error msg) msg failed
        else record v {
          socket = qt.set_descriptor fd v.socket;
          status = ready;
          effects = v.effects ++ status_changed ready ∷ [];
        }

  -- `process_error` of the constructor.
  unfoldable pub process_error : Downloader qt.State It → StorageError → Downloader qt.State It
  process_error u e = record u {
    error = e;
    status = failed;
    socket = qt.abort u.socket;
    effects = u.effects ++ set_error_string (error_string e) ∷ status_changed failed ∷ [];
  }

  unfoldable pub is_valid : Downloader qt.State It → Bool
  is_valid u = not (same u.status failed) && not (same u.status cancelled)

  -- `item()`; a default-constructed `Item` is `none`.
  unfoldable pub item_of : Downloader qt.State It → Option It
  item_of u = if same u.status failed then none else u.item

  unfoldable pub cancel : Downloader qt.State It → Bool → Downloader qt.State It
  unfolding fail fail_quietly destroyed with_message
  cancel u runtime =
      let msg : Text = text "Downloader::cancel(): download was cancelled" in
      if same u.status failed || (same u.status finished || same u.status cancelled)
      then u
      else if not runtime
      then fail_quietly u (destroyed (text "Downloader::cancel()"))
      else fail u (with_message StorageError.cancelled msg) msg cancelled

  -- The destructor.
  unfoldable pub destroy : Downloader qt.State It → Bool → Downloader qt.State It
  unfolding cancel
  destroy u runtime = if same u.status ready then cancel u runtime else u

  unfoldable pub close : Downloader qt.State It → Bool → Downloader qt.State It
  unfolding fail fail_quietly destroyed with_message
  close u runtime =
      let msg : Text =
        text "Downloader::close(): cannot finalize while Downloader is not in the Ready state" in
      if same u.status failed || (same u.status cancelled || u.finalizing)
      then u
      else if not (same u.status ready)
      then fail u (with_message logic_error msg) msg failed
      else if not runtime
      then fail_quietly u (destroyed (text "Downloader::close()"))
      else record u { finalizing = true; effects = u.effects ++ finish_download u.download_id ∷ [] }

  -- `process_reply` of `close`.
  unfoldable pub finish_reply : Downloader qt.State It → Bool → Downloader qt.State It
  unfolding fail destroyed with_message
  finish_reply u runtime =
      if same u.status cancelled || same u.status failed
      then u
      else if not runtime
      then fail u (destroyed (text "Downloader::close()"))
          (text "Downloader::close(): Runtime was destroyed previously") failed
      else record u { status = finished; effects = u.effects ++ status_changed finished ∷ [] }

  -- `process_error` of `close`.
  unfoldable pub finish_error : Downloader qt.State It → StorageError → Downloader qt.State It
  unfolding fail
  finish_error u e = if not (same u.status ready) then u else fail u e (error_string e) failed
