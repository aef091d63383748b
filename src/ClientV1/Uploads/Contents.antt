-- ===== src/ClientV1/Uploads/Contents.antt =====
-- What uploads leave in the file system: src/qt/client/internal/local_client/UploaderImpl.cpp.
use storage_framework.Base.{
  ℕ, Bool, not, ◌&&◌, true, false, ◌≡◌, refl, Option, none, some, List, [], ◌∷◌, ◌++◌, length,
  arith, if_rule, if◌then◌else◌, ◌==◌,
}
use storage_framework.Base.Text.{Text, text}
use storage_framework.Base.Int.{ℤ, pos}
use storage_framework.ClientV1.Exceptions.{conflict}
use storage_framework.ClientV1.Future.{Report, result, is_finished}
use storage_framework.ClientV1.Uploads.{
  Errno, is_deleted, give_up, call_failed, has_conflict, Host, FileObject, W, State, in_progress,
  finalized, cancelled_, error, set_timestamps, finish_in, quit_if_finished, finalize,
  create_target, close_created, make_file, flush_output, link_native, link_output, linked, succeed,
}

-- A call leaves what the socket has given and what the output file has taken.
abbrev pub Keeps : (h : Host) → h.State → h.State → Type 0
Keeps h s t = (h.delivered t ≡ h.delivered s) × (h.written t ≡ h.written s)

-- read(2), `QFile::write`, which may keep bytes in a buffer, `QFile::flush`, which empties it or fails, and
-- linkat(2) and rename(2), which name what is in the file.
pub record IsHost (h : Host) : Type 0 where
  pub read :
      (s : h.State) → h.delivered (h.read_available s).1 ≡ h.delivered s ++ (h.read_available s).0
  pub read_keeps : (s : h.State) → h.written (h.read_available s).1 ≡ h.written s
  pub write :
      (d : List ℕ) (s : h.State)
      → (h.write d s).0 ≡ pos (length d)
      → h.written (h.write d s).1 ≡ h.written s ++ d
  pub write_keeps : (d : List ℕ) (s : h.State) → h.delivered (h.write d s).1 ≡ h.delivered s
  pub flush :
      (s : h.State)
      → (h.flush s).0 ≡ true
      → (h.flushed (h.flush s).1 ≡ h.written s) × (h.delivered (h.flush s).1 ≡ h.delivered s)
  pub create_new : (p : Text) (s : h.State) → Keeps h s (h.create_new p s).1
  pub close_new : (s : h.State) → Keeps h s (h.close_new s).1
  pub unlink :
      (p : Text) (s : h.State)
      → (h.delivered (h.unlink p s) ≡ h.delivered s) × (h.flushed (h.unlink p s) ≡ h.flushed s)
  pub linkat :
      (p : Text) (s : h.State)
      → (h.linkat p s).0 ≡ none
      → h.content (h.linkat p s).1 p ≡ some (h.flushed s)
  pub linkat_keeps : (p : Text) (s : h.State) → h.delivered (h.linkat p s).1 ≡ h.delivered s
  pub rename :
      (p : Text) (s : h.State)
      → (h.rename p s).0 ≡ none
      → h.content (h.rename p s).1 p ≡ some (h.flushed s)
  pub rename_keeps : (p : Text) (s : h.State) → h.delivered (h.rename p s).1 ≡ h.delivered s
  pub open_tmpfile :
      (p : Text) (s : h.State)
      → (h.open_tmpfile p s).0 ≡ true
      → (h.written (h.open_tmpfile p s).1 ≡ [])
        × (h.delivered (h.open_tmpfile p s).1 ≡ h.delivered s)
  pub open_tmpfile_keeps :
      (p : Text) (s : h.State) → h.delivered (h.open_tmpfile p s).1 ≡ h.delivered s
  pub mkstemp :
      (p : Text) (s : h.State)
      → (h.mkstemp p s).0 ≡ none
      → (h.written (h.mkstemp p s).1 ≡ []) × (h.delivered (h.mkstemp p s).1 ≡ h.delivered s)

-- A result was reported.
abbrev pub has_result : List (Report Text) → Bool
has_result [] = false
has_result (result p ∷ rs) = true
has_result (r ∷ rs) = has_result rs

module _ (h : Host) (to_string : ℤ → Text) (law : IsHost h) where
  -- What was read was taken by the output file, and is all of it.
  abbrev IsComplete : W h to_string → Type 0
  IsComplete w =
      (w.reports ≡ [])
      × (h.written w.host ≡ h.delivered w.host)
      × (length (h.delivered w.host) ≡ w.size)

  -- What was read is in the temporary file.
  abbrev IsFlushed : W h to_string → Type 0
  IsFlushed w =
      (w.reports ≡ [])
      × (h.flushed w.host ≡ h.delivered w.host)
      × (length (h.delivered w.host) ≡ w.size)

  -- A result means that the target has what the socket has given, of the announced size.
  abbrev pub IsRight : W h to_string → Type 0
  IsRight w =
      has_result w.reports ≡ true
      → (h.content w.host w.path ≡ some (h.delivered w.host))
        × (length (h.delivered w.host) ≡ w.size)

  abbrev pub Concluded : W h to_string → Type 0
  Concluded w = (is_finished w.reports ≡ true) × IsRight w

  abbrev pub Ends : Option (W h to_string) → Type 0
  Ends none = Unit
  Ends (some w) = Concluded w

  linked-Ends :
      (r : Option Errno) (call : Text) (w : W h to_string)
      → w.reports ≡ []
      → (r ≡ none → h.content w.host w.path ≡ some (h.delivered w.host))
      → length (h.delivered w.host) ≡ w.size
      → Concluded (linked h to_string r call w)
  unfolding linked succeed
  linked-Ends none call w empty c l = (ground arith, λ _. (c refl, l))
  linked-Ends (some e) call w empty c l = (ground arith, λ r. absurd (ground arith))

  link_output-Ends : (w : W h to_string) → IsFlushed w → Concluded (link_output h to_string w)
  unfolding link_output
  link_output-Ends w c =
      let t = h.unlink w.path w.host in
      if_rule Concluded w.use_linkat _ _
        (λ _.
          linked-Ends (h.linkat w.path t).0 (text "linkat")
            (record w { host = (h.linkat w.path t).1 }) c.0
            (λ e.
              ground
                (arith, law.linkat w.path t e, law.unlink w.path w.host, law.linkat_keeps w.path t))
            (ground (arith, law.unlink w.path w.host, law.linkat_keeps w.path t)))
        (λ _.
          linked-Ends (h.rename w.path w.host).0 (text "rename")
            (record w { host = (h.rename w.path w.host).1 }) c.0
            (λ e. ground (arith, law.rename w.path w.host e, law.rename_keeps w.path w.host))
            (ground (arith, law.rename_keeps w.path w.host)))

  link_native-Ends : (w : W h to_string) → IsFlushed w → Ends (link_native h to_string w)
  unfolding link_native
  link_native-Ends w c =
      if_rule Ends (w.root && not (is_deleted h to_string w.file)) _ _ (λ _. link_output-Ends w c)
        (λ _. tt)

  flush_output-Ends : (w : W h to_string) → IsComplete w → Ends (flush_output h to_string w)
  unfolding flush_output
  flush_output-Ends w c =
      if_rule Ends (h.flush w.host).0 _ _
        (λ k.
          link_native-Ends (record w { host = (h.flush w.host).1 })
            (ground (arith, law.flush w.host k)))
        (λ _. (ground arith, λ r. absurd (ground arith)))

  make_file-Ends : (w : W h to_string) → IsComplete w → Ends (make_file h to_string w)
  unfolding make_file
  make_file-Ends w c =
      if_rule Ends (h.canonical w.host w.path) _ _
        (λ _.
          if_rule Ends w.root _ _
            (λ _.
              flush_output-Ends
                (record w {
                  file =
                      some (record {
                        etag = set_timestamps h to_string w.host w.path;
                        deleted = false;
                      });
                })
                c)
            (λ _. tt))
        (λ _. tt)

  close_created-Ends : (w : W h to_string) → IsComplete w → Ends (close_created h to_string w)
  unfolding close_created
  close_created-Ends w c = by_answer (h.close_new w.host).0
    where
      by_answer :
          (r : Option Errno)
          → Ends (elim r [
            | none ↦ make_file h to_string (record w { host = (h.close_new w.host).1 })
            | some e ↦ some (
                give_up
                  (call_failed h to_string
                    (text "Uploader::finish_upload(): cannot close tmp file: ")
                    e)
                  (record w { host = (h.close_new w.host).1 }))
          ])
      by_answer none =
          make_file-Ends (record w { host = (h.close_new w.host).1 })
            (ground (arith, law.close_new w.host))
      by_answer (some e) = (ground arith, λ r. absurd (ground arith))

  create_target-Ends : (w : W h to_string) → IsComplete w → Ends (create_target h to_string w)
  unfolding create_target
  create_target-Ends w c =
      if_rule Ends (h.create_new w.path w.host).0 _ _
        (λ _.
          close_created-Ends (record w { host = (h.create_new w.path w.host).1 })
            (ground (arith, law.create_new w.path w.host)))
        (λ _. (ground arith, λ r. absurd (ground arith)))

  finalize-Ends : (w : W h to_string) → IsComplete w → Ends (finalize h to_string w)
  unfolding finalize
  finalize-Ends w c = by_file w.file
    where
      by_file :
          (f : Option FileObject)
          → Ends (elim f [
            | some f ↦
                if has_conflict h to_string w.host w.path f.etag
                then some (give_up (conflict (text "Uploader::finish_upload(): ETag mismatch")) w)
                else flush_output h to_string w
            | none ↦ create_target h to_string w
          ])
      by_file none = create_target-Ends w c
      by_file (some f) =
          if_rule Ends (has_conflict h to_string w.host w.path f.etag) _ _
            (λ _. (ground arith, λ r. absurd (ground arith))) (λ _. flush_output-Ends w c)

  -- While it is in progress the worker has counted and stored what it has read.
  abbrev pub IsStored : W h to_string → Type 0
  IsStored w =
      (h.written w.host ≡ h.delivered w.host) × (length (h.delivered w.host) ≡ w.bytes_read)

  pub quit_if_finished-Ends :
      (m : Option (W h to_string)) → Ends m → Ends (quit_if_finished h to_string m)
  unfolding quit_if_finished
  quit_if_finished-Ends none e = tt
  quit_if_finished-Ends (some w) e = if_rule Concluded (is_finished w.reports) _ _ (λ _. e) (λ _. e)

  pub finish_in-Ends :
      (s : State) (w : W h to_string)
      → w.reports ≡ []
      → IsStored w
      → Ends (finish_in h to_string s w)
  unfolding finish_in
  finish_in-Ends in_progress w e t =
      if_rule Ends (w.bytes_read == w.size) _ _
        (λ k. finalize-Ends (record w { state = finalized }) (ground arith))
        (λ _. (ground arith, λ r. absurd (ground arith)))
  finish_in-Ends finalized w e t = tt
  finish_in-Ends cancelled_ w e t = (ground arith, λ r. absurd (ground arith))
  finish_in-Ends error w e t = (ground arith, λ r. absurd (ground arith))
