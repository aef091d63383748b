-- ===== src/Provider/Upload.antt =====
-- src/local-provider/LocalUploadJob.cpp: an upload of the local provider, from its first byte to the
-- file that it leaves.
pub mod Deadlock
pub mod Outcome
pub mod Failure
use storage_framework.Base.{
  ℕ, Bool, true, false, not, ◌&&◌, ◌||◌, ◌≡◌, Option, none, some, List, [], ◌∷◌, ◌++◌,
  if◌then◌else◌, length, is_empty,
}
use storage_framework.Base.Text.{Text, text, text_eq}
use storage_framework.Base.Int.{ℤ, pos, negsuc, ◌-ℤ◌, ltb_ℤ, eqb_ℤ}
use storage_framework.Errors.Exceptions.{StorageException, logic, resource, exists, conflict}
use storage_framework.Provider.Answer.{Answer, value, exception, ◌>>=◌, ◌>>◌, then_throw}
use storage_framework.Provider.Completion.{Completion, report_upload_error, finish, cancel}
use storage_framework.Provider.Completion

pub data JobState : Type 0 where
  in_progress finished cancelled : JobState

-- `file` is what has been written to the temporary file. `linked` is the content that the job has
-- given to `item_id`, and `unlinked` says that it has removed what was there. A temporary file with a
-- name (where `use_linkat` is false) is there until `tmp_removed`.
pub record LocalUpload : Type 0 where
  pub base : Completion
  pub size : ℤ
  pub bytes_to_write : ℤ
  pub method : Text
  pub state : JobState
  pub item_id : Text
  pub old_etag : Text
  pub parent_id : Text
  pub allow_overwrite : Bool
  pub use_linkat : Bool
  pub file : List ℕ
  pub file_open : Bool
  pub unlinked : Bool
  pub linked : Option (List ℕ)
  pub tmp_removed : Bool

abbrev pub with_base : Completion → LocalUpload → LocalUpload
with_base b u = record u { base = b }

-- What `QFile::write` answers: a count, or -1 with an error number and text.
pub record Written : Type 0 where
  pub count : ℤ
  pub file_error : ℤ
  pub error_text : Text

-- The file system while `finish` runs. An exception is what the `catch` clauses make of a
-- `filesystem_error`. `flush`, `link` and `rename` are `none` if the call succeeds.
pub record Disk (Item : Type 0) : Type 0 where
  pub item_exists : Answer Bool
  pub item_is_file : Answer Bool
  pub mtime : Answer Text
  pub flush : Option StorageException
  pub link : Option StorageException
  pub rename : Option StorageException
  pub item : Answer Item

-- `std::to_string`, and the last component of a path (`boost::filesystem::path::filename`).
module _ (to_string : ℤ → Text) (filename : Text → Text) where
  unfoldable pub abort_upload : LocalUpload → LocalUpload
  abort_upload u = record u {
    state = cancelled;
    file_open = false;
    tmp_removed = if u.use_linkat then u.tmp_removed else true;
    bytes_to_write = pos 0;
  }

  -- The `catch` clause of `on_bytes_ready`.
  unfoldable pub give_up : LocalUpload → StorageException → Option LocalUpload
  unfolding abort_upload report_upload_error
  give_up u e = elim (report_upload_error u.base e) [
    | none ↦ none
    | some b ↦ some (record (abort_upload u) { base = b })
  ]

  too_many : LocalUpload → StorageException
  too_many u = logic (
      u.method
      ++ (text ": received more than the expected number ("
          ++ (to_string u.size ++ text ") of bytes")))

  write_failed : LocalUpload → Written → StorageException
  write_failed u w =
      resource
        (u.method
          ++ (text ": write error: "
              ++ (w.error_text
                  ++ (text " (QFileDevice::FileError = " ++ (to_string w.file_error ++ text ")")))))
        w.file_error

  -- `QFileDevice::FatalError` is 3.
  write_short : LocalUpload → List ℕ → Written → StorageException
  write_short u buf w =
      resource
        (u.method
          ++ (text ": write error, requested "
              ++ (to_string (pos (length buf))
                  ++ (text " B, but wrote only "
                      ++ (to_string w.count ++ text " B. (QFileDevice::FileError = 3)")))))
        (pos 3)

  -- `buf` is what `readAll` gives and `w` what the write of it answers.
  unfoldable pub on_bytes_ready : LocalUpload → List ℕ → Written → Option LocalUpload
  unfolding give_up too_many write_failed write_short
  on_bytes_ready u buf w =
      let left : ℤ = u.bytes_to_write -ℤ pos (length buf) in
      let v : LocalUpload = record u { bytes_to_write = left } in
      if ltb_ℤ u.bytes_to_write (pos 0) || is_empty buf
      then some u
      else if ltb_ℤ left (pos 0)
      then give_up v (too_many u)
      else if eqb_ℤ w.count (negsuc 0)
      then give_up v (write_failed u w)
      else if not (eqb_ℤ w.count (pos (length buf)))
      then give_up v (write_short u buf w)
      else some (record v { file = u.file ++ buf })

  too_early : LocalUpload → StorageException
  too_early u = logic (
      text "finish() method called too early, size was given as "
      ++ (to_string u.size
          ++ (text " but only "
              ++ (to_string (u.size -ℤ u.bytes_to_write) ++ text " bytes were received"))))

  exists_already : LocalUpload → StorageException
  exists_already u =
      exists (u.method ++ (text ": \"" ++ (u.item_id ++ text "\" exists already"))) u.item_id
        (filename u.item_id)

  etag_mismatch : LocalUpload → StorageException
  etag_mismatch u = conflict (u.method ++ text ": ETag mismatch")

  module _ {Item : Type 0} where
    is_obstructed : Disk Item → Bool → Answer Bool
    is_obstructed d false = value false
    is_obstructed d true = do is_file ← d.item_is_file; value (not is_file)

    recheck_create : LocalUpload → Disk Item → Answer (Unit {0})
    unfolding exists_already
    recheck_create u d =
        if u.allow_overwrite
        then value tt
        else (d.item_exists >>= λ there. then_throw there (exists_already u))

    recheck_update : LocalUpload → Disk Item → Answer (Unit {0})
    unfolding exists_already etag_mismatch is_obstructed
    recheck_update u d = do
      there ← d.item_exists
      obstructed ← is_obstructed d there
      then_throw obstructed (exists_already u)
      now ← d.mtime
      then_throw (not (text_eq now u.old_etag)) (etag_mismatch u)

    -- The checks that `finish` repeats before it touches the file system.
    unfoldable pub recheck : LocalUpload → Disk Item → Answer (Unit {0})
    unfolding recheck_create recheck_update
    recheck u d =
        if not (is_empty u.parent_id)
        then recheck_create u d
        else if not (is_empty u.old_etag)
        then recheck_update u d
        else value tt

    finish_link : LocalUpload → Disk Item → Option StorageException → Answer Item × LocalUpload
    finish_link u d (some e) = (exception e, u)
    finish_link u d none = (d.item, record u { linked = some u.file; file_open = false })

    -- The anonymous temporary file is linked after the old file is unlinked; a named one is renamed.
    unfoldable pub publish : LocalUpload → Disk Item → Answer Item × LocalUpload
    unfolding finish_link
    publish u d =
        if u.use_linkat
        then finish_link (record u { unlinked = true }) d d.link
        else finish_link u d d.rename

    unfoldable pub flush_and_publish :
        LocalUpload → Disk Item → Option StorageException → Answer Item × LocalUpload
    unfolding publish
    flush_and_publish u d (some e) = (exception e, u)
    flush_and_publish u d none = publish u d

    unfoldable pub commit : LocalUpload → Disk Item → Answer (Unit {0}) → Answer Item × LocalUpload
    unfolding flush_and_publish
    commit u d (exception e) = (exception e, u)
    commit u d (value _) = flush_and_publish u d d.flush

    unfoldable pub finish_received : Disk Item → LocalUpload → Answer Item × LocalUpload
    unfolding recheck commit too_early
    finish_received d u =
        let v : LocalUpload = record u { state = finished } in
        if ltb_ℤ (pos 0) u.bytes_to_write
        then (exception (too_early u), u)
        else commit v d (recheck v d)

    unfoldable pub after_read : Disk Item → Option LocalUpload → Option (Answer Item × LocalUpload)
    after_read d none = none
    after_read d (some u) = some (finish_received d u)

    -- `LocalUploadJob::finish`, with the bytes that its last read finds.
    unfoldable pub own_finish :
        List ℕ → Written → Disk Item → LocalUpload → Option (Answer Item × LocalUpload)
    unfolding on_bytes_ready finish_received after_read
    own_finish buf w d u = after_read d (on_bytes_ready u buf w)

    own_cancel : Item → LocalUpload → Option (Answer Item × LocalUpload)
    unfolding abort_upload
    own_cancel nothing u =
        some (value nothing, elim u.state [ in_progress ↦ abort_upload u | _ ↦ u ])

    -- The calls that the service makes: `UploadJobImpl::finish` and `cancel` over the above.
    unfoldable pub finish_upload :
        Item → List ℕ → Written → Disk Item → LocalUpload → Option (Answer Item × LocalUpload)
    unfolding Completion.finish
    finish_upload any buf w d u = finish (λ u. u.base) with_base (own_finish buf w d) any u

    unfoldable pub cancel_upload : Item → LocalUpload → Option (Answer Item × LocalUpload)
    unfolding Completion.cancel own_cancel
    cancel_upload nothing u = cancel (λ u. u.base) with_base (own_cancel nothing) nothing u
