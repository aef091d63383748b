-- ===== src/Examples/Hosts.antt =====
-- A disk, and a file that is read into a socket, for the transfers of the first client library.
use storage_framework.Base.{
  ℕ, Bool, true, false, not, ◌≡◌, refl, Option, none, some, List, [], ◌∷◌, ◌++◌, if◌then◌else◌,
  length, take, drop, take-drop, arith,
}
use storage_framework.Base.Text.{Text, text_eq, text_eq_refl}
use storage_framework.Base.Int.{pos}
use storage_framework.Local.FileSystem.{mtime_of}
use storage_framework.ClientV1.Uploads.{Host}
use storage_framework.ClientV1.Uploads.Finishing.{CreatesFiles}
use storage_framework.ClientV1.Uploads.Contents.{IsHost}
use storage_framework.ClientV1.Downloads.{Channel}
use storage_framework.ClientV1.Downloads.Accounts.{IsChannel}

pub record Disk : Type 0 where
  pub incoming : List ℕ
  pub delivered : List ℕ
  pub written : List ℕ
  pub flushed : List ℕ
  pub files : List (Text × List ℕ)

unfoldable pub content_of : Text → List (Text × List ℕ) → Option (List ℕ)
content_of p [] = none
content_of p ((q, d) ∷ fs) = if text_eq q p then some d else content_of p fs

abbrev pub is_new : Option (List ℕ) → Bool
is_new none = true
is_new (some d) = false

abbrev pub put : Text → List ℕ → Disk → Disk
put p d s = record s { files = (p, d) ∷ s.files }

content_of-put :
    (p : Text) (d : List ℕ) (fs : List (Text × List ℕ)) → content_of p ((p, d) ∷ fs) ≡ some d
unfolding content_of
content_of-put p d fs = ground (arith, text_eq_refl p)

abbrev pub disk : Host
disk = record {
  State = Disk;
  filename = λ p. p;
  parent_path = λ p. p;
  appended = λ n. [];
  unfilled = λ s. [];
  tmp_name = λ s. [];
  open_tmpfile = λ p s. (true, record s { written = []; flushed = [] });
  mkstemp = λ p s. (none, record s { written = []; flushed = [] });
  read_available =
      λ s. (s.incoming, record s { incoming = []; delivered = s.delivered ++ s.incoming });
  write = λ d s. (pos (length d), record s { written = s.written ++ d });
  flush = λ s. (true, record s { flushed = s.written });
  file_error = λ s. (pos 0, []);
  create_new = λ p s. (is_new (content_of p s.files), put p [] s);
  close_new = λ s. (none, s);
  canonical = λ s p. true;
  unlink = λ p s. s;
  linkat = λ p s. (none, put p s.flushed s);
  rename = λ p s. (none, put p s.flushed s);
  stat = λ s p. mtime_of (pos 5) 0;
  delivered = λ s. s.delivered;
  written = λ s. s.written;
  flushed = λ s. s.flushed;
  content = λ s p. content_of p s.files;
}

pub disk-CreatesFiles : CreatesFiles disk
disk-CreatesFiles s p c e = refl

pub disk-IsHost : IsHost disk
disk-IsHost = record {
  read = λ s. refl;
  read_keeps = λ s. refl;
  write = λ d s h. refl;
  write_keeps = λ d s. refl;
  flush = λ s h. (refl, refl);
  create_new = λ p s. (refl, refl);
  close_new = λ s. (refl, refl);
  unlink = λ p s. (refl, refl);
  linkat = λ p s h. content_of-put p s.flushed s.files;
  linkat_keeps = λ p s. refl;
  rename = λ p s h. content_of-put p s.flushed s.files;
  rename_keeps = λ p s. refl;
  open_tmpfile = λ p s h. (refl, refl);
  open_tmpfile_keeps = λ p s. refl;
  mkstemp = λ p s h. (refl, refl);
}

pub record Pipe : Type 0 where
  pub unread : List ℕ
  pub taken : List ℕ

abbrev pub pipe : Channel
pipe = record {
  State = Pipe;
  appended = λ n. [];
  open_file = λ p s. (not (text_eq p []), record s { taken = [] });
  size = λ s. length s.unread;
  read = λ n s. (some (take n s.unread), record s { unread = drop n s.unread });
  write = λ d s. (pos (length d), record s { taken = s.taken ++ d });
  file_error = λ s. (pos 2, []);
  socket_error = λ s. (pos 1, []);
  unread = λ s. s.unread;
  taken = λ s. s.taken;
}

pub pipe-IsChannel : IsChannel pipe
pipe-IsChannel = record {
  open_file = λ p s h. (refl, refl);
  read = λ n s buf h. (ground (arith, take-drop n s.unread), refl);
  write = λ d s h. (refl, refl);
}
