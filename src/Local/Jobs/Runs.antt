-- ===== src/Local/Jobs/Runs.antt =====
-- Downloads of the local provider from their constructor on: src/local-provider/LocalDownloadJob.cpp.
use storage_framework.Base.{
  subst, sym, ℕ, ◌-◌, ◌+◌, ◌≤◌, Bool, true, false, ◌≡◌, ◌⊎◌, inl, inr, refl, Option, none, some,
  List, [], ◌∷◌, length, arith, if◌then◌else◌,
}
use storage_framework.Base.Text.{Text}
use storage_framework.Base.Int.{ℤ, pos_part}
use storage_framework.Provider.Completion.{Completion}
use storage_framework.Provider.Upload.{Written}
use storage_framework.Local.Outcome.{returns}
use storage_framework.Local.FileSystem.{FileSystem}
use storage_framework.Local.Jobs.Opening.{download-IsSending}
use storage_framework.Local.Jobs.{LocalDownload, Source, download}
use storage_framework.Local.Jobs.Sending.{
  smaller, ReadAnswer, read_and_write_chunk, on_bytes_written,
}
use storage_framework.Local.Jobs.Chunks.{
  IsSending, IsComplete, IsGivenUp, GoesOn, read_and_write_chunk-GoesOn, on_bytes_written-GoesOn,
}

-- A signal `bytesWritten`, and what the calls answer that its handler makes.
pub record Signal : Type 0 where
  pub bytes : ℕ
  pub read : ReadAnswer
  pub written : Written

-- What the socket has been given and has not signalled.
unfoldable pub pending : LocalDownload → ℕ
pending d = pos_part d.bytes_to_write - length d.unread

-- A job that is completed is disconnected from its socket, which signals no more than it was given.
module _ (to_string : ℤ → Text) (asserts : Bool) where
  unfoldable pub session : List Signal → LocalDownload → Option LocalDownload
  session [] d = some d
  session (e ∷ es) d =
      if d.base.completed
      then some d
      else elim (on_bytes_written to_string asserts (smaller e.bytes (pending d)) e.read e.written
          d) [ none ↦ none | some v ↦ session es v ]

  -- The queued call, and then the signals.
  unfoldable pub transfer :
      ReadAnswer → Written → List Signal → LocalDownload → Option LocalDownload
  transfer r w es d = elim (read_and_write_chunk to_string r w d) [
    | none ↦ none
    | some v ↦ session es v
  ]

  -- A download that is under way, complete, or given up.
  unfoldable pub IsAccounted : List ℕ → Option LocalDownload → Type 0
  IsAccounted content none = ⊥
  IsAccounted content (some v) = IsSending content v ⊎ (IsComplete content v ⊎ IsGivenUp v)

  -- A download that has ended stays as it is.
  session_ended :
      (es : List Signal) (d : LocalDownload) → d.base.completed ≡ true → session es d ≡ some d
  unfolding session
  session_ended [] d h = refl
  session_ended (e ∷ es) d h = rw h refl

  pending_lem :
      (content : List ℕ) (d : LocalDownload) (i : IsSending content d) (n : ℕ)
      → length d.unread + smaller n (pending d) ≤ i.rest
  unfolding smaller pending
  pending_lem content d i n = ground (arith, i.counted, i.unread_counted)

  forget :
      (content : List ℕ) (d v : LocalDownload)
      → GoesOn content d (some v)
      → IsAccounted content (some v)
  unfolding GoesOn IsAccounted
  forget content d v (inl g) = inl g.0
  forget content d v (inr g) = inr g

  after_signal :
      (content : List ℕ) (d : LocalDownload) (f : LocalDownload → Option LocalDownload)
      (x : Option LocalDownload)
      → GoesOn content d x
      → ((v : LocalDownload) → IsAccounted content (some v) → IsAccounted content (f v))
      → IsAccounted content (elim x [ none ↦ none | some v ↦ f v ])
  unfolding GoesOn
  after_signal content d f none g h = absurd g
  after_signal content d f (some v) g h = h v (forget content d v g)

  unless_completed :
      (content : List ℕ) (b : Bool) (x y : Option LocalDownload)
      → b ≡ false
      → IsAccounted content y
      → IsAccounted content (if b then x else y)
  unless_completed content true x y h k = absurd (cc)
  unless_completed content false x y h k = k

  session-IsAccounted :
      (content : List ℕ) (es : List Signal) (d : LocalDownload)
      → IsAccounted content (some d)
      → IsAccounted content (session es d)
  unfolding session IsAccounted
  session-IsAccounted content [] d a = a
  session-IsAccounted content (e ∷ es) d (inr (inl c)) =
      subst (IsAccounted content) (sym (session_ended (e ∷ es) d c.0)) (inr (inl c))
  session-IsAccounted content (e ∷ es) d (inr (inr g)) =
      subst (IsAccounted content) (sym (session_ended (e ∷ es) d g.0)) (inr (inr g))
  session-IsAccounted content (e ∷ es) d (inl i) =
      unless_completed content d.base.completed _ _ i.not_completed (
        after_signal content d (session es) _
          (on_bytes_written-GoesOn to_string content asserts (smaller e.bytes (pending d)) e.read
            e.written d i (pending_lem content d i e.bytes))
          (λ v a. session-IsAccounted content es v a))

  -- A download that the constructor has made is accounted for at any time, whatever the calls answer and
  -- however many bytes each signal of the socket reports, up to what the socket was given: the bytes
  -- sent are the beginning of the file, `bytes_to_write` is between what is still to be read and the
  -- file's size, no assertion fails and no thread blocks; or the download is complete without an error,
  -- and what was sent is the whole file; or an error was reported, and the file and socket are closed.
  pub transfer-IsAccounted :
      (fs : FileSystem) (root : Text) (source : Source) (base : Completion) (id etag : Text)
      (s : fs.State) (d : LocalDownload) (r : ReadAnswer) (w : Written) (es : List Signal)
      → base.completed ≡ false
      → base.locked ≡ false
      → download fs to_string root source base id etag s ≡ returns d
      → IsAccounted source.content (transfer r w es d)
  unfolding transfer
  transfer-IsAccounted fs root source base id etag s d r w es c l h =
      after_signal source.content d (session es) _
        (read_and_write_chunk-GoesOn to_string source.content r w d
          (download-IsSending fs to_string root source base id etag s d c l h))
        (λ v a. session-IsAccounted source.content es v a)
