-- ===== src/Client/Uploader/Session.antt =====
-- An uploader with the replies that it waits for, and what can happen to it.
use storage_framework.Base.{
  ℕ, Bool, true, false, not, ◌&&◌, Option, none, some, List, [], ◌∷◌, if◌then◌else◌,
}
use storage_framework.Base.Text.{Text}
use storage_framework.Base.Int.{ℤ}
use storage_framework.Errors.StorageError.{StorageError}
use storage_framework.Client.Socket.{Socket}
use storage_framework.Client.Uploader.{
  Uploader, start, process_reply, process_error, cancel, close, finish_reply, finish_error,
  write_data,
}

-- The calls of a client, and the answers of the provider to the call that made the uploader and to
-- the one that finishes it. The flag is whether the runtime is there and valid at that moment.
pub data Event (Md : Type 0) : Type 0 where
  replies : Bool → Text → ℤ → Event Md
  refuses : StorageError → Event Md
  cancels : Bool → Event Md
  closes : Bool → Event Md
  replies_finish : Bool → Md → Event Md
  refuses_finish : StorageError → Event Md
  writes : List ℕ → Event Md

-- A pending call is answered once.
pub record Session (S Md : Type 0) : Type 0 where
  pub uploader : Uploader S Md
  pub opening : Bool
  pub finishing : Bool

module _ (qt : Socket) {Md : Type 0} (validate : Md → Option StorageError) where
  unfoldable pub after_close : Session qt.State Md → Uploader qt.State Md → Session qt.State Md
  after_close s u = record s {
    uploader = u;
    finishing = if u.finalizing && not s.uploader.finalizing then true else s.finishing;
  }

  -- `none` for an answer to a call that is not pending.
  unfoldable pub step : Session qt.State Md → Event Md → Option (Session qt.State Md)
  unfolding after_close
  step s (replies runtime id fd) =
      if s.opening
      then some (record s { uploader = process_reply qt s.uploader runtime id fd; opening = false })
      else none
  step s (refuses e) =
      if s.opening
      then some (record s { uploader = process_error qt s.uploader e; opening = false })
      else none
  step s (cancels runtime) = some (record s { uploader = cancel qt s.uploader runtime })
  step s (closes runtime) = some (after_close s (close qt s.uploader runtime))
  step s (replies_finish runtime md) =
      if s.finishing
      then some (record s {
        uploader = finish_reply qt validate s.uploader runtime md;
        finishing = false;
      })
      else none
  step s (refuses_finish e) =
      if s.finishing
      then some (record s { uploader = finish_error qt s.uploader e; finishing = false })
      else none
  step s (writes d) = some (record s { uploader = (write_data qt s.uploader d).1 })

  abbrev step_from : Option (Session qt.State Md) → Event Md → Option (Session qt.State Md)
  step_from none e = none
  step_from (some s) e = step s e

  unfoldable pub run : Option (Session qt.State Md) → List (Event Md) → Option (Session qt.State Md)
  run s [] = s
  run s (e ∷ es) = run (step_from s e) es

module _ (qt : Socket) {Md : Type 0} where
  unfoldable pub begin : Text → ℕ → Session qt.State Md
  begin method size = record { uploader = start qt method size; opening = true; finishing = false }
