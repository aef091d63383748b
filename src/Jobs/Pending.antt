-- ===== src/Jobs/Pending.antt =====
-- src/provider/internal/PendingJobs.cpp. The lock `lock_` makes each operation one step.
use storage_framework.Base.{
  Bool, false, ◌≡◌, ◌&&◌, ◌||◌, not, Option, none, some, List, [], ◌∷◌, ◌++◌, map, if◌then◌else◌,
  checked, ◌==◌, is_some,
}
use storage_framework.Base.Text.{Text, text, text_eq}
use storage_framework.Base.Int.{ℤ, pos, ◌+ℤ◌, ◌-ℤ◌, eqb_ℤ}
use storage_framework.Base.Key.{text_key, pair_key, pair_lt}
use storage_framework.Base.Dict.{Dict, lookup, emplace, assign, erase}
use storage_framework.Errors.Exceptions.{StorageException, logic}

-- `QDBusServiceWatcher`: a set of names that the bus is asked to watch.
pub record ServiceWatcher : Type 1 where
  pub State : Type 0
  pub add_watched : Text → State → State
  pub remove_watched : Text → State → State
  pub watches : State → Text → Bool
  pub watches-add :
      (n m : Text) (w : State) → watches (add_watched n w) m ≡ (text_eq n m || watches w m)
  pub watches-remove :
      (n m : Text) (w : State) → watches (remove_watched n w) m ≡ (not (text_eq n m) && watches w m)

-- A call that either returns or throws, with the state that it leaves.
pub data Outcome (A : Type 0) : Type 0 where
  returned : A → Outcome A
  thrown : StorageException → Outcome A

-- A job's key: the client's bus name and the job's id.
abbrev pub JobId : Type 0
JobId = Text × Text

pub record PendingJobs (D U W : Type 0) : Type 0 where
  pub downloads : Dict JobId D
  pub uploads : Dict JobId U
  pub services : Dict Text ℤ
  pub watcher : W

-- A call of `cancel_job`, with the identifier that it is given.
pub data CancelCall (D U : Type 0) : Type 0 where
  cancel_download : Text → D → CancelCall D U
  cancel_upload : Text → U → CancelCall D U

-- `!client_bus_name.isEmpty() && client_bus_name[0] == ':'`
unfoldable pub is_unique_name : Text → Bool
is_unique_name [] = false
is_unique_name (c ∷ rest) = c == b':'

module _ (qt : ServiceWatcher) {D U : Type 0} where
  watch_peer_at : PendingJobs D U qt.State → Text → Option ℤ → PendingJobs D U qt.State
  watch_peer_at p bus_name (some n) = record p {
    services = assign bus_name (n +ℤ pos 1) p.services;
  }
  watch_peer_at p bus_name none = record p {
    services = assign bus_name (pos 1) p.services;
    watcher = qt.add_watched bus_name p.watcher;
  }

  unfoldable pub watch_peer : PendingJobs D U qt.State → Text → PendingJobs D U qt.State
  unfolding watch_peer_at
  watch_peer p bus_name = watch_peer_at p bus_name (lookup bus_name p.services)

  unwatch_peer_at : PendingJobs D U qt.State → Text → Option ℤ → PendingJobs D U qt.State
  unwatch_peer_at p bus_name none = p
  unwatch_peer_at p bus_name (some n) =
      if eqb_ℤ (n -ℤ pos 1) (pos 0)
      then (record p {
        services = erase bus_name p.services;
        watcher = qt.remove_watched bus_name p.watcher;
      })
      else (record p { services = assign bus_name (n -ℤ pos 1) p.services })

  unfoldable pub unwatch_peer : PendingJobs D U qt.State → Text → PendingJobs D U qt.State
  unfolding unwatch_peer_at
  unwatch_peer p bus_name = unwatch_peer_at p bus_name (lookup bus_name p.services)

module _ (qt : ServiceWatcher) (asserts : Bool) {D U : Type 0} where
  unfoldable pub add_download :
      (D → Text) → PendingJobs D U qt.State → Text → D → Option (PendingJobs D U qt.State)
  unfolding is_unique_name
  add_download download_id p client job =
      checked asserts
        (is_unique_name client && not (is_some (lookup (client, download_id job) p.downloads)))
        (watch_peer qt (record p { downloads = emplace (client, download_id job) job p.downloads })
          client)

  unfoldable pub add_upload :
      (U → Text) → PendingJobs D U qt.State → Text → U → Option (PendingJobs D U qt.State)
  unfolding is_unique_name
  add_upload upload_id p client job =
      checked asserts
        (is_unique_name client && not (is_some (lookup (client, upload_id job) p.uploads)))
        (watch_peer qt (record p { uploads = emplace (client, upload_id job) job p.uploads })
          client)

module _ (qt : ServiceWatcher) {D U : Type 0} where
  remove_download_at :
      PendingJobs D U qt.State → Text → Text → Option D → PendingJobs D U qt.State × Outcome D
  remove_download_at p client id none = (p, thrown (logic (text "No such download: " ++ id)))
  remove_download_at p client id (some job) = (
    unwatch_peer qt (record p { downloads = erase (client, id) p.downloads }) client,
    returned job,
  )

  unfoldable pub remove_download :
      PendingJobs D U qt.State → Text → Text → PendingJobs D U qt.State × Outcome D
  unfolding remove_download_at
  remove_download p client id = remove_download_at p client id (lookup (client, id) p.downloads)

  remove_upload_at :
      PendingJobs D U qt.State → Text → Text → Option U → PendingJobs D U qt.State × Outcome U
  remove_upload_at p client id none = (p, thrown (logic (text "No such upload: " ++ id)))
  remove_upload_at p client id (some job) =
      (unwatch_peer qt (record p { uploads = erase (client, id) p.uploads }) client, returned job)

  unfoldable pub remove_upload :
      PendingJobs D U qt.State → Text → Text → PendingJobs D U qt.State × Outcome U
  unfolding remove_upload_at
  remove_upload p client id = remove_upload_at p client id (lookup (client, id) p.uploads)

-- The loop of `service_disconnected` from `lower_bound` on: it takes entries off while they are the
-- client's, and stops at the first that is not. The jobs come in the order in which they are cancelled.
unfoldable pub take_client : {J : Type 0} → Text → Dict JobId J → Dict JobId J × List J
take_client client [] = ([], [])
take_client client ((k, job) ∷ m) =
    let rest = take_client client m in
    if text_eq k.0 client then (rest.0, job ∷ rest.1) else ((k, job) ∷ m, [])

-- `lower_bound(lower)` passes over the entries before `lower`.
unfoldable pub from_lower_bound : {J : Type 0} → Text → Dict JobId J → Dict JobId J × List J
unfolding take_client
from_lower_bound client [] = ([], [])
from_lower_bound client ((k, job) ∷ m) =
    let rest = from_lower_bound client m in
    if pair_lt k (client, [])
    then ((k, job) ∷ rest.0, rest.1)
    else take_client client ((k, job) ∷ m)

module _ (qt : ServiceWatcher) {D U : Type 0} (download_id : D → Text) (upload_id : U → Text) where
  unfoldable pub cancel_calls : List D → List U → List (CancelCall D U)
  cancel_calls ds us =
      map (λ d. cancel_download (text "download " ++ download_id d) d) ds
      ++ map (λ u. cancel_upload (text "upload " ++ upload_id u) u) us

  unfoldable pub service_disconnected :
      PendingJobs D U qt.State → Text → PendingJobs D U qt.State × List (CancelCall D U)
  service_disconnected p client =
      let (downloads, ds) = from_lower_bound client p.downloads in
      let (uploads, us) = from_lower_bound client p.uploads in
      (
        record {
          downloads = downloads;
          uploads = uploads;
          services = erase client p.services;
          watcher = qt.remove_watched client p.watcher;
        },
        cancel_calls ds us,
      )

  -- The destructor.
  unfoldable pub destroy : PendingJobs D U qt.State → List (CancelCall D U)
  destroy p = cancel_calls (map (λ e. e.1) p.downloads) (map (λ e. e.1) p.uploads)
