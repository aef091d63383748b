-- ===== src/ClientV1/Uploads/Finishing.antt =====
-- `do_finish` in an upload's worker: src/qt/client/internal/local_client/UploaderImpl.cpp.
use storage_framework.Base.{
  Bool, true, false, not, ◌&&◌, ◌≡◌, refl, Option, none, some, List, [], ◌∷◌, ◌++◌, if◌then◌else◌,
  is_empty, Bool-cases, inl, inr, arith,
}
use storage_framework.Base.Text.{Text}
use storage_framework.Base.Int.{ℤ}
use storage_framework.ClientV1.Future.{Report, exception, result, finished, is_finished}
use storage_framework.ClientV1.Uploads.{
  Host, W, State, in_progress, finalized, cancelled_, error, set_timestamps, do_finish, finish_in,
  quit_if_finished, finalize, create_target, close_created, make_file, flush_output, link_native,
  link_output, linked, succeed, is_deleted,
}

-- The future has an outcome and is ready.
abbrev pub is_answered : List (Report Text) → Bool
is_answered (exception e ∷ finished ∷ rs) = true
is_answered (result a ∷ finished ∷ rs) = true
is_answered _ = false

abbrev pub is_progressing : State → Bool
is_progressing in_progress = true
is_progressing _ = false

abbrev pub is_open : Option Bool → Bool
is_open (some b) = b
is_open none = false

answered-finished : (rs : List (Report Text)) → is_answered rs ≡ true → is_finished rs ≡ true
answered-finished [] a = absurd (cc)
answered-finished (finished ∷ rs) a = absurd (cc)
answered-finished (exception e ∷ finished ∷ rs) a = refl
answered-finished (result x ∷ finished ∷ rs) a = refl
answered-finished (exception e ∷ []) a = absurd (cc)
answered-finished (result x ∷ []) a = absurd (cc)
answered-finished (exception e ∷ exception f ∷ rs) a = absurd (cc)
answered-finished (exception e ∷ result x ∷ rs) a = absurd (cc)
answered-finished (result x ∷ exception f ∷ rs) a = absurd (cc)
answered-finished (result x ∷ result y ∷ rs) a = absurd (cc)

pub answered-append :
    (rs ss : List (Report Text)) → is_answered rs ≡ true → is_answered (rs ++ ss) ≡ true
answered-append [] ss a = absurd (cc)
answered-append (finished ∷ rs) ss a = absurd (cc)
answered-append (exception e ∷ finished ∷ rs) ss a = refl
answered-append (result x ∷ finished ∷ rs) ss a = refl
answered-append (exception e ∷ []) ss a = absurd (cc)
answered-append (result x ∷ []) ss a = absurd (cc)
answered-append (exception e ∷ exception f ∷ rs) ss a = absurd (cc)
answered-append (exception e ∷ result x ∷ rs) ss a = absurd (cc)
answered-append (result x ∷ exception f ∷ rs) ss a = absurd (cc)
answered-append (result x ∷ result y ∷ rs) ss a = absurd (cc)

-- A file that has just been created has a canonical path.
abbrev pub CreatesFiles : Host → Type 0
CreatesFiles h =
    (s : h.State) (p : Text)
    → (h.create_new p s).0 ≡ true
    → (h.close_new (h.create_new p s).1).0 ≡ none
    → h.canonical (h.close_new (h.create_new p s).1).1 p ≡ true

module _ (h : Host) (to_string : ℤ → Text) where
  -- While no outcome is known the worker is in progress, and its file and root are there.
  abbrev pub is_active : W h to_string → Bool
  is_active w =
      is_progressing w.state
      && (is_empty w.reports
          && (is_open w.output_open && (w.root && not (is_deleted h to_string w.file))))

  -- Either it goes on, or its future is ready and its thread quits.
  abbrev pub is_settled : W h to_string → Bool
  is_settled w = if w.quit then is_answered w.reports else is_active w

  abbrev pub Settles : Option (W h to_string) → Type 0
  Settles none = ⊥
  Settles (some w) = is_settled w ≡ true

  -- The outcome is reported to a future that had none.
  abbrev Answers : Option (W h to_string) → Type 0
  Answers none = ⊥
  Answers (some w) = is_answered w.reports ≡ true

  pub quit_if_finished-Settles :
      (m : Option (W h to_string)) → Answers m → Settles (quit_if_finished h to_string m)
  unfolding quit_if_finished
  quit_if_finished-Settles none a = a
  quit_if_finished-Settles (some w) a = rw (answered-finished w.reports a) a

  link_output-Answers :
      (w : W h to_string) → w.reports ≡ [] → Answers (some (link_output h to_string w))
  unfolding link_output linked succeed
  link_output-Answers w empty = ground arith

  link_native-Answers :
      (w : W h to_string)
      → w.reports ≡ []
      → w.root ≡ true
      → is_deleted h to_string w.file ≡ false
      → Answers (link_native h to_string w)
  unfolding link_native
  link_native-Answers w empty r d = ground (arith, link_output-Answers w empty)

  flush_output-Answers :
      (w : W h to_string)
      → w.reports ≡ []
      → w.root ≡ true
      → is_deleted h to_string w.file ≡ false
      → Answers (flush_output h to_string w)
  unfolding flush_output
  flush_output-Answers w empty r d = elim (Bool-cases (h.flush w.host).0) [
    | inl ok ↦ rw ok (link_native-Answers (record w { host = (h.flush w.host).1 }) empty r d)
    | inr bad ↦ rw (bad, empty) refl
  ]

  make_file-Answers :
      (w : W h to_string)
      → w.reports ≡ []
      → w.root ≡ true
      → h.canonical w.host w.path ≡ true
      → Answers (make_file h to_string w)
  unfolding make_file is_deleted
  make_file-Answers w empty r c = ground (
    arith,
    flush_output-Answers
        (record w {
          file = some (record { etag = set_timestamps h to_string w.host w.path; deleted = false });
        })
        empty r refl,
  )

  module _ (creates : CreatesFiles h) where
    close_created-Answers :
        (w : W h to_string)
        → w.reports ≡ []
        → w.root ≡ true
        → ((h.close_new w.host).0 ≡ none → h.canonical (h.close_new w.host).1 w.path ≡ true)
        → Answers (close_created h to_string w)
    unfolding close_created
    close_created-Answers w empty r c =
        ground (arith, make_file-Answers (record w { host = (h.close_new w.host).1 }) empty r)

    create_target-Answers :
        (w : W h to_string) → w.reports ≡ [] → w.root ≡ true → Answers (create_target h to_string w)
    unfolding create_target
    create_target-Answers w empty r = ground (
      arith,
      close_created-Answers (record w { host = (h.create_new w.path w.host).1 }) empty r,
      creates w.host w.path,
    )

    finalize-Answers :
        (w : W h to_string)
        → w.reports ≡ []
        → w.root ≡ true
        → is_deleted h to_string w.file ≡ false
        → Answers (finalize h to_string w)
    unfolding finalize
    finalize-Answers w empty r d =
        ground (arith, flush_output-Answers w empty r d, create_target-Answers w empty r)

    finish_in-Answers :
        (s : State) (w : W h to_string)
        → is_progressing s ≡ true
        → w.reports ≡ []
        → w.root ≡ true
        → is_deleted h to_string w.file ≡ false
        → Answers (finish_in h to_string s w)
    unfolding finish_in
    finish_in-Answers in_progress w p empty r d =
        ground (arith, finalize-Answers (record w { state = finalized }) empty r d)
    finish_in-Answers finalized w p empty r d = absurd (cc)
    finish_in-Answers cancelled_ w p empty r d = absurd (cc)
    finish_in-Answers error w p empty r d = absurd (cc)

    pub do_finish-Settles :
        (w : W h to_string) → is_active w ≡ true → Settles (do_finish h to_string w)
    unfolding do_finish
    do_finish-Settles w a =
        quit_if_finished-Settles _
          (finish_in-Answers w.state w (ground arith) (ground arith) (ground arith) (ground arith))
