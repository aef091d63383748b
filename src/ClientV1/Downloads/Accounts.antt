-- ===== src/ClientV1/Downloads/Accounts.antt =====
-- The bytes of a download: src/qt/client/internal/local_client/DownloaderImpl.cpp.
use mathlib.Core.List.{append-nil, append_assoc}
use storage_framework.Base.{
  ℕ, ◌+◌, ◌≤◌, Bool, true, false, ◌||◌, ◌≡◌, refl, Option, none, some, List, [], ◌∷◌, ◌++◌, if_rule,
  length, length-append, arith, sym, subst, ◌∙◌, ap,
}
use storage_framework.Base.Text.{Text, text}
use storage_framework.Base.Int.{ℤ, pos, negsuc, ltb_ℤ, eqb_ℤ}
use storage_framework.ClientV1.Exceptions.{cancelled, resource}
use storage_framework.ClientV1.Future.{Report, exception, finished}
use storage_framework.ClientV1.Downloads.Runs.{Session, with_worker}
use storage_framework.ClientV1.Downloads.{
  conclude, too_early, Channel, W, in_progress, finalized, cancelled_, error, finish_in, do_finish,
  do_cancel, handle_error, wrote, write_chunk, read_and_write_chunk, read_size, is_progressing,
}

-- read(2) and write(2).
pub record IsChannel (c : Channel) : Type 0 where
  pub open_file :
      (p : Text) (s : c.State)
      → (c.open_file p s).0 ≡ true
      → (c.size (c.open_file p s).1 ≡ length (c.unread (c.open_file p s).1))
        × (c.taken (c.open_file p s).1 ≡ [])
  pub read :
      (n : ℕ) (s : c.State) (buf : List ℕ)
      → (c.read n s).0 ≡ some buf
      → (c.unread s ≡ buf ++ c.unread (c.read n s).1) × (c.taken (c.read n s).1 ≡ c.taken s)
  pub write :
      (d : List ℕ) (s : c.State)
      → (c.write d s).0 ≡ pos (length d)
      → (c.taken (c.write d s).1 ≡ c.taken s ++ d) × (c.unread (c.write d s).1 ≡ c.unread s)

-- The future is ready, with or without an exception.
abbrev pub is_answered : List (Report (Unit {0})) → Bool
is_answered (exception e ∷ finished ∷ []) = true
is_answered (finished ∷ []) = true
is_answered _ = false

abbrev pub is_success : List (Report (Unit {0})) → Bool
is_success (finished ∷ rs) = true
is_success _ = false

nil_of_length : (xs : List ℕ) → length xs ≡ 0 → xs ≡ []
nil_of_length [] k = refl
nil_of_length (x ∷ xs) k = absurd (omega arith)

module _ (c : Channel) (to_string : ℤ → Text) (law : IsChannel c) (content : List ℕ) where
  -- What is not yet signalled is what is counted, and the socket has had the rest of the file.
  pub record IsCounted (w : W c to_string) (signalled : ℕ) : Type 0 where
    pub progressing : w.state ≡ in_progress
    pub quiet : w.reports ≡ []
    pub split : c.taken w.channel ++ c.unread w.channel ≡ content
    pub left : ℕ
    pub counted : w.bytes_to_write ≡ pos left
    pub total : left + signalled ≡ length content
    pub bound : signalled ≤ length (c.taken w.channel)

  -- An outcome was reported once, and success means that the socket has had the whole file.
  pub record IsDone (w : W c to_string) (signalled : ℕ) : Type 0 where
    pub answered : is_answered w.reports ≡ true
    pub whole :
        is_success w.reports ≡ true → (c.taken w.channel ≡ content) × (signalled ≡ length content)

  unfoldable pub IsSound : Session c.State → Type 0
  IsSound s =
      (s.worker.quit ≡ false → IsCounted s.worker s.signalled)
      × (s.worker.quit ≡ true → IsDone s.worker s.signalled)

  abbrev pub Sound : Option (Session c.State) → Type 0
  Sound none = ⊥
  Sound (some s) = IsSound s

  -- Nothing is left of the file once all of it is signalled.
  whole_taken :
      (taken unread : List ℕ) (n : ℕ)
      → taken ++ unread ≡ content
      → n ≡ length content
      → n ≤ length taken
      → taken ≡ content
  whole_taken taken unread n e l b =
      sym (append-nil taken)
      ∙ (ap (λ (u : List ℕ). taken ++ u)
            (sym
              (nil_of_length unread (omega (arith, ap (length {0}) e, length-append taken unread))))
          ∙ e)

  conclude-IsSound :
      (w : W c to_string) (n : ℕ) (rs : List (Report (Unit {0})))
      → w.reports ≡ []
      → is_answered (rs ++ finished ∷ []) ≡ true
      → (is_success (rs ++ finished ∷ []) ≡ true
          → (c.taken w.channel ≡ content) × (n ≡ length content))
      → IsSound (record { worker = conclude c to_string rs w; signalled = n })
  unfolding IsSound
  conclude-IsSound w n rs q a t = (
    λ x. absurd (cc),
    λ _. record {
      answered = subst (λ ss. is_answered (ss ++ (rs ++ finished ∷ [])) ≡ true) (sym q) a;
      whole = λ k. t (subst (λ ss. is_success (ss ++ (rs ++ finished ∷ [])) ≡ true) q k);
    },
  )

  finish_in_progress :
      (w : W c to_string) (n : ℕ)
      → IsCounted w n
      → Sound (with_worker c to_string n (finish_in c to_string in_progress w))
  unfolding finish_in
  finish_in_progress w n i =
      if_rule (λ m. Sound (with_worker c to_string n m)) (ltb_ℤ (pos 0) w.bytes_to_write) _ _
        (λ _.
          conclude-IsSound w n (exception (too_early c to_string w) ∷ []) i.quiet refl
            (λ k. absurd (cc)))
        (λ k.
          conclude-IsSound (record w { state = finalized }) n [] i.quiet refl
            (λ _.
              let all : n ≡ length content =
                none_left w.bytes_to_write i.left n i.counted i.total k in
              (whole_taken _ _ n i.split all i.bound, all)))
    where
      none_left :
          (b : ℤ) (left n : ℕ)
          → b ≡ pos left
          → left + n ≡ length content
          → ltb_ℤ (pos 0) b ≡ false
          → n ≡ length content
      none_left b left n e t k = ground arith

  pub do_finish-Sound :
      (w : W c to_string) (n : ℕ)
      → IsCounted w n
      → Sound (with_worker c to_string n (do_finish c to_string w))
  unfolding do_finish
  do_finish-Sound w n i =
      subst (λ st. Sound (with_worker c to_string n (finish_in c to_string st w)))
        (sym i.progressing) (finish_in_progress w n i)

  pub handle_error-Sound :
      (msg : Text) (code : ℤ) (w : W c to_string) (n : ℕ)
      → w.reports ≡ []
      → Sound (with_worker c to_string n (handle_error c to_string msg code w))
  unfolding handle_error do_finish finish_in
  handle_error-Sound msg code w n q =
      conclude-IsSound
        (record w {
          aborted = is_progressing c to_string w.state || w.aborted;
          state = error;
          error_msg = text "Downloader: " ++ msg;
          error_code = code;
        })
        n (exception (resource (text "Downloader: " ++ msg) code) ∷ []) q refl (λ k. absurd (cc))

  pub do_cancel-Sound :
      (w : W c to_string) (n : ℕ)
      → IsCounted w n
      → Sound (with_worker c to_string n (do_cancel c to_string w))
  unfolding do_cancel do_finish finish_in
  do_cancel-Sound w n i =
      let stopped = record w {
        connected = false;
        aborted = true;
        bytes_to_write = pos 0;
        state = cancelled_;
      } in
      subst
        (λ st. Sound (
          with_worker c to_string n
            (elim st [ in_progress ↦ do_finish c to_string stopped | _ ↦ some w ])))
        (sym i.progressing)
        (conclude-IsSound stopped n
          (exception (
              cancelled (
                text "Downloader::finish_download(): download of "
                ++ (w.filename ++ text " was cancelled")))
            ∷ [])
          i.quiet refl (λ k. absurd (cc)))

  -- A worker that goes on.
  pub going_on :
      (w : W c to_string) (n : ℕ)
      → w.quit ≡ false
      → IsCounted w n
      → IsSound (record { worker = w; signalled = n })
  unfolding IsSound
  going_on w n q i = ((λ _. i), (λ k. absurd (cc)))

  wrote-Sound :
      (r : ℤ) (m : ℕ) (w : W c to_string) (n : ℕ)
      → w.quit ≡ false
      → w.reports ≡ []
      → (r ≡ pos m → IsCounted w n)
      → Sound (with_worker c to_string n (wrote c to_string r m w))
  unfolding wrote
  wrote-Sound r m w n q e i =
      if_rule (λ m. Sound (with_worker c to_string n m)) (eqb_ℤ r (negsuc 0)) _ _
        (λ _. handle_error-Sound _ _ w n e)
        (λ _.
          if_rule (λ m. Sound (with_worker c to_string n m)) (eqb_ℤ r (pos m)) _ _
            (λ k. going_on w n q (i (eq_of_eqb r m k))) (λ _. handle_error-Sound _ _ w n e))
    where
      eq_of_eqb : (r : ℤ) (n : ℕ) → eqb_ℤ r (pos n) ≡ true → r ≡ pos n
      eq_of_eqb r n k = ground arith

  -- A chunk that was read is written.
  write_chunk-Sound :
      (buf : Option (List ℕ)) (before : c.State) (w : W c to_string) (n : ℕ)
      → w.quit ≡ false
      → (c.read read_size before).0 ≡ buf
      → w.channel ≡ (c.read read_size before).1
      → IsCounted (record w { channel = before }) n
      → Sound (with_worker c to_string n (write_chunk c to_string buf w))
  unfolding write_chunk
  write_chunk-Sound none before w n q r e i = handle_error-Sound _ _ w n i.quiet
  write_chunk-Sound (some buf) before w n q r e i =
      let o = c.write buf w.channel in
      let got = law.read read_size before buf r in
      wrote-Sound o.0 (length buf) (record w { channel = o.1 }) n q i.quiet
        (λ k.
          let put = law.write buf w.channel k in
          let old : c.taken w.channel ≡ c.taken before = ap c.taken e ∙ got.1 in
          record {
            progressing = i.progressing;
            quiet = i.quiet;
            split = cc (
              append_assoc (c.taken before) buf (c.unread (c.read read_size before).1),
              put.0,
              put.1,
              old,
              got.0,
              ap c.unread e,
              i.split,
            );
            left = i.left;
            counted = i.counted;
            total = i.total;
            bound = omega (
              arith,
              i.bound,
              ap (length {0}) put.0,
              ap (length {0}) old,
              length-append (c.taken w.channel) buf,
            );
          })

  pub read_and_write_chunk-Sound :
      (w : W c to_string) (n : ℕ)
      → w.quit ≡ false
      → IsCounted w n
      → Sound (with_worker c to_string n (read_and_write_chunk c to_string w))
  unfolding read_and_write_chunk
  read_and_write_chunk-Sound w n q i =
      let r = c.read read_size w.channel in
      write_chunk-Sound r.0 w.channel (record w { channel = r.1 }) n q refl refl i
