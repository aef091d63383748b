-- ===== src/Client/Downloader/Lifecycle.antt =====
-- The life of a downloader, over every order of calls and answers: src/qt/internal/DownloaderImpl.cpp.
use storage_framework.Base.{
  ℕ, suc, ◌+◌, Bool, true, false, not, ◌&&◌, ◌≡◌, ◌≢◌, refl, inl, inr, subst, Option, none, some,
  List, [], ◌∷◌, ◌++◌, if◌then◌else◌, Option-cases, arith,
}
use storage_framework.Base.Text.{Text}
use storage_framework.Base.Int.{ℤ}
use mathlib.Core.Option.{some-injective}
use storage_framework.Errors.StorageError.{StorageError}
use storage_framework.Client.Socket.{Socket}
use storage_framework.Client.Downloader.{
  Downloader, Status, loading, ready, cancelled, finished, failed, Effect, status_changed,
  set_error_string, finish_download, start, process_reply, process_error, cancel, close,
  finish_reply, finish_error,
}

-- The calls of a client, and the answers of the provider to the call that made the downloader and to
-- the one that finishes it. The flag is whether the runtime is there and valid at that moment.
pub data Event : Type 0 where
  replies : Bool → Text → ℤ → Event
  refuses : StorageError → Event
  cancels : Bool → Event
  closes : Bool → Event
  replies_finish : Bool → Event
  refuses_finish : StorageError → Event

-- A pending call is answered once.
pub record Session (S It : Type 0) : Type 0 where
  pub downloader : Downloader S It
  pub opening : Bool
  pub finishing : Bool

-- The calls of `FinishDownload` so far.
unfoldable pub finishes : List Effect → ℕ
finishes [] = 0
finishes (finish_download id ∷ es) = suc (finishes es)
finishes (status_changed s ∷ es) = finishes es
finishes (set_error_string m ∷ es) = finishes es

finishes-append : (xs ys : List Effect) → finishes (xs ++ ys) ≡ finishes xs + finishes ys
unfolding finishes
finishes-append [] ys = omega arith
finishes-append (finish_download id ∷ xs) ys = omega (arith, finishes-append xs ys)
finishes-append (status_changed s ∷ xs) ys = finishes-append xs ys
finishes-append (set_error_string m ∷ xs) ys = finishes-append xs ys

-- The status that was announced last.
abbrev announce : Effect → Option Status → Option Status
announce (status_changed s) r = some s
announce _ r = r

unfoldable pub announced : Option Status → List Effect → Option Status
announced r [] = r
announced r (e ∷ es) = announced (announce e r) es

announced-append :
    (r : Option Status) (xs ys : List Effect)
    → announced r (xs ++ ys) ≡ announced (announced r xs) ys
unfolding announced
announced-append r [] ys = refl
announced-append r (x ∷ xs) ys = announced-append (announce x r) xs ys

abbrev shown : Status → Option Status
shown loading = none
shown s = some s

module _ (qt : Socket) {It : Type 0} where
  -- `none` for an answer to a call that is not pending.
  unfoldable pub step : Session qt.State It → Event → Option (Session qt.State It)
  step s (replies runtime id fd) =
      if s.opening
      then some
          (record s { downloader = process_reply qt s.downloader runtime id fd; opening = false })
      else none
  step s (refuses e) =
      if s.opening
      then some (record s { downloader = process_error qt s.downloader e; opening = false })
      else none
  step s (cancels runtime) = some (record s { downloader = cancel qt s.downloader runtime })
  step s (closes runtime) =
      let d : Downloader qt.State It = close qt s.downloader runtime in
      some (record s {
        downloader = d;
        finishing = if d.finalizing && not s.downloader.finalizing then true else s.finishing;
      })
  step s (replies_finish runtime) =
      if s.finishing
      then some (record s { downloader = finish_reply qt s.downloader runtime; finishing = false })
      else none
  step s (refuses_finish e) =
      if s.finishing
      then some (record s { downloader = finish_error qt s.downloader e; finishing = false })
      else none

  abbrev step_from : Option (Session qt.State It) → Event → Option (Session qt.State It)
  step_from none e = none
  step_from (some s) e = step s e

  unfoldable pub run : Option (Session qt.State It) → List Event → Option (Session qt.State It)
  run s [] = s
  run s (e ∷ es) = run (step_from s e) es

  unfoldable pub begin_download : Text → It → Session qt.State It
  begin_download method item = record {
    downloader = start qt method item;
    opening = true;
    finishing = false;
  }

  pub record IsSound (s : Session qt.State It) : Type 0 where
    pub opened : s.downloader.status ≡ loading → s.opening ≡ true
    pub opening_early : s.opening ≡ true → s.downloader.finalizing ≡ false
    pub not_ready : s.opening ≡ true → s.downloader.status ≢ ready
    pub finished_closed : s.downloader.status ≡ finished → s.downloader.finalizing ≡ true
    pub finishing_closed : s.finishing ≡ true → s.downloader.finalizing ≡ true
    pub unfinished : s.finishing ≡ true → s.downloader.status ≢ finished
    pub finish_calls : finishes s.downloader.effects ≡ (if s.downloader.finalizing then 1 else 0)
    pub announces : announced none s.downloader.effects ≡ shown s.downloader.status

  step-IsSound : (s t : Session qt.State It) (e : Event) → IsSound s → step s e ≡ some t → IsSound t
  unfolding step process_reply process_error cancel close finish_reply finish_error finishes
      announced
  step-IsSound s t (replies runtime id fd) i h = grind (arith, finishes-append, announced-append)
  step-IsSound s t e i h = grind (arith, finishes-append, announced-append)

  run-none : (es : List Event) → run none es ≡ none
  unfolding run
  run-none [] = refl
  run-none (e ∷ es) = run-none es

  run-IsSound :
      (s t : Session qt.State It) (es : List Event)
      → IsSound s
      → run (some s) es ≡ some t
      → IsSound t
  unfolding run
  run-IsSound s t [] i h = subst IsSound (some-injective s t h) i
  run-IsSound s t (e ∷ es) i h = elim (Option-cases (step s e)) [
    | inl stuck ↦ cc (run-none es, stuck)
    | inr (u, next) ↦ run-IsSound u t es (step-IsSound s u e i next) (rw (← next) h)
  ]

  begin_download-IsSound : (method : Text) (item : It) → IsSound (begin_download method item)
  unfolding begin_download start finishes announced
  begin_download-IsSound method item = ground arith

  -- In every session that a new downloader can reach by calls and answers in any order: it is
  -- `Loading` only while the opening call is pending, and `Ready` only after it; it is `Finished`
  -- only after `close` was accepted; the provider has been sent one `FinishDownload` if `close` was
  -- accepted and none if not; and the status that it announced last is its status.
  pub run-begin_download-IsSound :
      (method : Text) (item : It) (t : Session qt.State It) (es : List Event)
      → run (some (begin_download method item)) es ≡ some t
      → IsSound t
  run-begin_download-IsSound method item t es h =
      run-IsSound (begin_download method item) t es (begin_download-IsSound method item) h

  -- A downloader that is cancelled while the opening call is pending stays cancelled when that call
  -- is answered, and becomes `Error` when it fails.
  pub cancel-opening :
      (u : Downloader qt.State It) (runtime : Bool) (id : Text) (fd : ℤ) (e : StorageError)
      → u.status ≡ loading
      → ((process_reply qt (cancel qt u true) runtime id fd).status ≡ cancelled)
        × ((process_error qt (cancel qt u true) e).status ≡ failed)
  unfolding cancel process_reply process_error
  cancel-opening u runtime id fd e l = ground arith
