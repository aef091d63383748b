-- ===== src/Local/Jobs/Chunks.antt =====
-- The bytes of a download of the local provider: src/local-provider/LocalDownloadJob.cpp.
use storage_framework.Base.{
  ℕ, ◌+◌, ◌-◌, ◌≤◌, Bool, true, false, not, ◌&&◌, ◌≡◌, ◌≢◌, ◌⊎◌, inl, inr, refl, ◌∙◌, ap, Option,
  none, some, List, [], ◌∷◌, ◌++◌, length, take, drop, length-append, take-drop, length-take,
  Bool-cases, arith, if◌then◌else◌,
}
use mathlib.Core.List.{append_assoc, append-nil}
use storage_framework.Base.Text.{Text}
use storage_framework.Base.Int.{ℤ, pos, negsuc, ◌-ℤ◌, ltb_ℤ, eqb_ℤ}
use storage_framework.Errors.Exceptions.{StorageException}
use storage_framework.Provider.Completion.{report_download_error, report_complete, close_write}
use storage_framework.Provider.Upload.{Written}
use storage_framework.Local.Jobs.{LocalDownload}
use storage_framework.Local.Jobs.Sending.{
  read_size, smaller, ReadAnswer, read_failed, read_some, give_up, cancel_own, write_chunk,
  read_chunk, complete, read_and_write_chunk, on_bytes_written,
}

-- A download under way: the bytes sent and those still to be read are the file's, in order, and
-- `bytes_to_write` counts those that the socket has not passed on, `rest`, among them all that are
-- still to be read.
pub record IsSending (content : List ℕ) (d : LocalDownload) : Type 0 where
  pub not_completed : d.base.completed ≡ false
  pub not_locked : d.base.locked ≡ false
  pub whole : d.sent ++ d.unread ≡ content
  pub rest : ℕ
  pub counted : d.bytes_to_write ≡ pos rest
  pub unread_counted : length d.unread ≤ rest
  pub within : rest ≤ length content

-- All has been sent.
abbrev pub IsComplete : List ℕ → LocalDownload → Type 0
IsComplete content d = (d.base.completed ≡ true) × (d.base.failure ≡ none) × (d.sent ≡ content)

-- An error was reported, and the job has closed its file and its socket.
abbrev pub IsGivenUp : LocalDownload → Type 0
IsGivenUp d =
    (d.base.completed ≡ true)
    × (d.base.failure ≢ none)
    × (d.socket_open ≡ false)
    × (d.file_open ≡ false)

-- From `d`, with at most one more chunk.
unfoldable pub GoesOn : List ℕ → LocalDownload → Option LocalDownload → Type 0
GoesOn content d none = ⊥
GoesOn content d (some v) =
    (IsSending content v × (length v.sent ≤ length d.sent + read_size))
    ⊎ (IsComplete content v ⊎ IsGivenUp v)

module _ (to_string : ℤ → Text) (content : List ℕ) where
  give_up-GoesOn :
      (d v : LocalDownload) (e : StorageException)
      → v.base.locked ≡ false
      → GoesOn content d (give_up to_string v e)
  unfolding GoesOn give_up report_download_error cancel_own close_write
  give_up-GoesOn d v e h = ground arith

  if-GoesOn :
      (b : Bool) (d : LocalDownload) (x y : Option LocalDownload)
      → GoesOn content d x
      → GoesOn content d y
      → GoesOn content d (if b then x else y)
  if-GoesOn true d x y h k = h
  if-GoesOn false d x y h k = k

  sent_chunk :
      (n : ℕ) (d : LocalDownload)
      → IsSending content d
      → n ≤ read_size
      → GoesOn content d
          (some (record d { sent = d.sent ++ take n d.unread; unread = drop n d.unread }))
  unfolding GoesOn
  sent_chunk n d i h = inl (
    record {
      not_completed = i.not_completed;
      not_locked = i.not_locked;
      whole =
          append_assoc d.sent (take n d.unread) (drop n d.unread)
          ∙ (ap (λ u. d.sent ++ u) (take-drop n d.unread) ∙ i.whole);
      rest = i.rest;
      counted = i.counted;
      unread_counted = omega (
        arith,
        length-append (take n d.unread) (drop n d.unread),
        ap length (take-drop n d.unread),
        i.unread_counted,
      );
      within = i.within;
    },
    omega (arith, length-append d.sent (take n d.unread), length-take n d.unread, h),
  )

  write_chunk-GoesOn :
      (w : Written) (n : ℕ) (d : LocalDownload)
      → IsSending content d
      → n ≤ read_size
      → GoesOn content d
          (write_chunk to_string w (take n d.unread) (record d { unread = drop n d.unread }))
  unfolding write_chunk
  write_chunk-GoesOn w n d i h =
      if-GoesOn (eqb_ℤ w.count (negsuc 0)) d _ _
        (give_up-GoesOn d (record d { unread = drop n d.unread }) _ i.not_locked)
        (if-GoesOn (not (eqb_ℤ w.count (pos (length (take n d.unread))))) d _ _
          (give_up-GoesOn d (record d { unread = drop n d.unread }) _ i.not_locked)
          (sent_chunk n d i h))

  smaller_bound : (m n : ℕ) → smaller m n ≤ n
  unfolding smaller
  smaller_bound m n = omega arith

  read_chunk-GoesOn :
      (r : ReadAnswer) (w : Written) (d : LocalDownload)
      → IsSending content d
      → GoesOn content d (read_chunk to_string r w d)
  unfolding read_chunk
  read_chunk-GoesOn (read_failed code message) w d i = give_up-GoesOn d d _ i.not_locked
  read_chunk-GoesOn (read_some n) w d i =
      write_chunk-GoesOn w (smaller n read_size) d i (smaller_bound n read_size)

  empty_lem : (xs : List ℕ) → length xs ≤ 0 → xs ≡ []
  empty_lem [] h = refl
  empty_lem (x ∷ xs) h = absurd (omega arith)

  complete-GoesOn :
      (d : LocalDownload)
      → IsSending content d
      → d.unread ≡ []
      → GoesOn content d (complete to_string (report_complete d.base) d)
  unfolding GoesOn complete report_complete close_write
  complete-GoesOn d i h = ground (arith, append-nil d.sent)

  -- A chunk is read and written, or the download is complete.
  pub read_and_write_chunk-GoesOn :
      (r : ReadAnswer) (w : Written) (d : LocalDownload)
      → IsSending content d
      → GoesOn content d (read_and_write_chunk to_string r w d)
  unfolding read_and_write_chunk
  read_and_write_chunk-GoesOn r w d i = elim (Bool-cases (eqb_ℤ d.bytes_to_write (pos 0))) [
    | inl h ↦
        rw h
          (complete-GoesOn d i (empty_lem d.unread (ground (arith, i.unread_counted, i.counted))))
    | inr h ↦ rw h (read_chunk-GoesOn r w d i)
  ]

  unless_aborted :
      (b : Bool) (d : LocalDownload) (x : Option LocalDownload)
      → b ≡ false
      → GoesOn content d x
      → GoesOn content d (if b then none else x)
  unless_aborted true d x h k = absurd (cc)
  unless_aborted false d x h k = k

  signalled :
      (d : LocalDownload) (bytes : ℕ) (i : IsSending content d)
      → length d.unread + bytes ≤ i.rest
      → IsSending content (record d { bytes_to_write = d.bytes_to_write -ℤ pos bytes })
  signalled d bytes i h = record {
    not_completed = i.not_completed;
    not_locked = i.not_locked;
    whole = i.whole;
    rest = i.rest - bytes;
    counted = ground (arith, i.counted, h);
    unread_counted = omega (arith, h);
    within = omega (arith, i.within);
  }

  -- While the file keeps the content that it was opened with, and the socket signals no more bytes than
  -- it was given and has not signalled before, a signal keeps a download under way: no assertion fails
  -- and no thread blocks, `bytes_to_write` stays between what is still to be read and the file's
  -- size, at most 64 KiB more are sent, and what has been sent is the beginning of the file. Otherwise the
  -- download is complete, and all of the file was sent, or it has reported an error.
  pub on_bytes_written-GoesOn :
      (asserts : Bool) (bytes : ℕ) (r : ReadAnswer) (w : Written) (d : LocalDownload)
      (i : IsSending content d)
      → length d.unread + bytes ≤ i.rest
      → GoesOn content d (on_bytes_written to_string asserts bytes r w d)
  unfolding on_bytes_written GoesOn
  on_bytes_written-GoesOn asserts bytes r w d i h =
      unless_aborted (asserts && ltb_ℤ (d.bytes_to_write -ℤ pos bytes) (pos 0)) d _
        (ground (arith, i.counted, h))
        (read_and_write_chunk-GoesOn r w
          (record d { bytes_to_write = d.bytes_to_write -ℤ pos bytes }) (signalled d bytes i h))
