-- ===== src/Client/Uploader/Lifecycle.antt =====
-- The life of an uploader over every order of calls and answers.
use storage_framework.Base.{
  ℕ, suc, ◌+◌, Bool, true, false, ◌≡◌, ◌≢◌, refl, Option, none, some, List, [], ◌∷◌, ◌++◌,
  if◌then◌else◌, arith, Option-cases, inl, inr, subst,
}
use storage_framework.Base.Text.{Text}
use storage_framework.Errors.StorageError.{StorageError}
use mathlib.Core.Option.{some-injective}
use storage_framework.Client.Socket.{Socket}
use storage_framework.Client.Uploader.{
  Status, loading, ready, cancelled, finished, failed, Effect, status_changed, set_error_string,
  cancel_upload, finish_upload, start, process_reply, process_error, cancel, close, finish_reply,
  finish_error, write_data,
}
use storage_framework.Client.Uploader.Session.{
  Session, Event, replies, refuses, cancels, closes, replies_finish, refuses_finish, writes, step,
  run, begin,
}

-- The calls of `FinishUpload` so far.
unfoldable pub finishes : List Effect → ℕ
finishes [] = 0
finishes (finish_upload id ∷ es) = suc (finishes es)
finishes (status_changed s ∷ es) = finishes es
finishes (set_error_string m ∷ es) = finishes es
finishes (cancel_upload id ∷ es) = finishes es

finishes-append : (xs ys : List Effect) → finishes (xs ++ ys) ≡ finishes xs + finishes ys
unfolding finishes
finishes-append [] ys = omega arith
finishes-append (finish_upload id ∷ xs) ys = omega (arith, finishes-append xs ys)
finishes-append (status_changed s ∷ xs) ys = finishes-append xs ys
finishes-append (set_error_string m ∷ xs) ys = finishes-append xs ys
finishes-append (cancel_upload id ∷ xs) ys = finishes-append xs ys

-- The status that was announced last.
abbrev announce : Effect → Option Status → Option Status
announce (status_changed s) r = some s
announce _ r = r

unfoldable pub announced : Option Status → List Effect → Option Status
announced r [] = r
announced r (e ∷ es) = announced (announce e r) es

announced-append :
    (r : Option Status) (xs ys : List Effect)
    → announced r (xs ++ ys) ≡ announced (announced r xs) ys
unfolding announced
announced-append r [] ys = refl
announced-append r (x ∷ xs) ys = announced-append (announce x r) xs ys

abbrev shown : Status → Option Status
shown loading = none
shown s = some s

module _ (qt : Socket) {Md : Type 0} (validate : Md → Option StorageError) where
  pub record IsSound (s : Session qt.State Md) : Type 0 where
    pub opened : s.uploader.status ≡ loading → s.opening ≡ true
    pub opening_early : s.opening ≡ true → s.uploader.finalizing ≡ false
    pub not_ready : s.opening ≡ true → s.uploader.status ≢ ready
    pub finished_closed : s.uploader.status ≡ finished → s.uploader.finalizing ≡ true
    pub finishing_closed : s.finishing ≡ true → s.uploader.finalizing ≡ true
    pub unfinished : s.finishing ≡ true → s.uploader.status ≢ finished
    pub finish_calls : finishes s.uploader.effects ≡ (if s.uploader.finalizing then 1 else 0)
    pub announces : announced none s.uploader.effects ≡ shown s.uploader.status

  step-IsSound :
      (s t : Session qt.State Md) (e : Event Md)
      → IsSound s
      → step qt validate s e ≡ some t
      → IsSound t
  unfolding step process_reply process_error cancel close finish_reply finish_error write_data
      finishes announced
  step-IsSound s t (replies runtime id fd) i h = grind (arith, finishes-append, announced-append)
  step-IsSound s t (refuses e) i h = grind (arith, finishes-append, announced-append)
  step-IsSound s t (cancels runtime) i h = grind (arith, finishes-append, announced-append)
  step-IsSound s t (closes runtime) i h = grind (arith, finishes-append, announced-append)
  step-IsSound s t (replies_finish runtime md) i h =
      grind (arith, finishes-append, announced-append)
  step-IsSound s t (refuses_finish e) i h = grind (arith, finishes-append, announced-append)
  step-IsSound s t (writes d) i h = grind (arith, finishes-append, announced-append)

  run-none : (es : List (Event Md)) → run qt validate none es ≡ none
  unfolding run
  run-none [] = refl
  run-none (e ∷ es) = run-none es

  run-IsSound :
      (s t : Session qt.State Md) (es : List (Event Md))
      → IsSound s
      → run qt validate (some s) es ≡ some t
      → IsSound t
  unfolding run
  run-IsSound s t [] i h = subst IsSound (some-injective s t h) i
  run-IsSound s t (e ∷ es) i h = elim (Option-cases (step qt validate s e)) [
    | inl stuck ↦ cc (run-none es, stuck)
    | inr (u, next) ↦ run-IsSound u t es (step-IsSound s u e i next) (rw (← next) h)
  ]

  begin-IsSound : (method : Text) (size : ℕ) → IsSound (begin qt method size)
  unfolding begin start finishes announced
  begin-IsSound method size = ground arith

  -- In every session that a new uploader can reach by calls and answers in any order: it is `Loading`
  -- only while the opening call is pending, and `Ready` only after it; it is `Finished` only after
  -- `close` was accepted; the provider has been sent one `FinishUpload` if `close` was accepted and
  -- none if not; and the status that it announced last is its status.
  pub run-begin-IsSound :
      (method : Text) (size : ℕ) (t : Session qt.State Md) (es : List (Event Md))
      → run qt validate (some (begin qt method size)) es ≡ some t
      → IsSound t
  run-begin-IsSound method size t es h =
      run-IsSound (begin qt method size) t es (begin-IsSound method size) h

  abbrev pub is_refusal : Event Md → Bool
  is_refusal (refuses e) = true
  is_refusal _ = false

  -- No event takes an uploader out of `Error`, and none takes one out of `Finished` in a sound session. Out
  -- of `Cancelled` an error answer to the opening call takes it to `Error`, and no other event takes it
  -- anywhere.
  pub step-final :
      (s t : Session qt.State Md) (e : Event Md)
      → step qt validate s e ≡ some t
      → ((s.uploader.status ≡ failed) → t.uploader.status ≡ failed)
        × ((s.uploader.status ≡ finished) → IsSound s → t.uploader.status ≡ finished)
        × ((s.uploader.status ≡ cancelled)
            → t.uploader.status ≡ (if is_refusal e then failed else cancelled))
  unfolding step process_reply process_error cancel close finish_reply finish_error write_data
  step-final s t (replies runtime id fd) h =
      (λ f. ground arith, λ f i. ground arith, λ f. ground arith)
  step-final s t (refuses e) h = (λ f. ground arith, λ f i. ground arith, λ f. ground arith)
  step-final s t (cancels runtime) h = (λ f. ground arith, λ f i. ground arith, λ f. ground arith)
  step-final s t (closes runtime) h = (λ f. ground arith, λ f i. ground arith, λ f. ground arith)
  step-final s t (replies_finish runtime md) h =
      (λ f. ground arith, λ f i. ground arith, λ f. ground arith)
  step-final s t (refuses_finish e) h = (λ f. ground arith, λ f i. ground arith, λ f. ground arith)
  step-final s t (writes d) h = (λ f. ground arith, λ f i. ground arith, λ f. ground arith)

  -- `close` on a `Finished` uploader of a sound session does nothing: it makes no complaint.
  pub close-finished :
      (s : Session qt.State Md) (runtime : Bool)
      → IsSound s
      → s.uploader.status ≡ finished
      → close qt s.uploader runtime ≡ s.uploader
  unfolding close
  close-finished s runtime i f = ground (arith, i.finished_closed f)
