-- ===== src/Examples/Folders.antt =====
-- A file system of folders for the tests of Local: its state lists the paths of the folders, and only a
-- canonical path leads anywhere. Every name is free once its path is longer than each in the list.
pub mod Laws
use mathlib.Core.List.{append_assoc}
use storage_framework.Base.{
  subst, length-append, Bool-cases, inl, inr, ◌↔◌, ℕ, zero, suc, ◌+◌, ◌<◌, Bool, true, false, ◌&&◌,
  ◌||◌, ◌≡◌, ◌∙◌, refl, sym, ap, List, [], ◌∷◌, ◌++◌, if◌then◌else◌, ltb, length, arith,
}
use storage_framework.Base.Text.{
  Text, text, text_eq, text_eq_refl, text_eq→eq, starts_with, starts_with-append,
}
use storage_framework.Base.Int.{pos}
use storage_framework.Local.Outcome.{FilesystemError, Result, ok, fails}
use storage_framework.Local.FileSystem.{
  FileSystem, FileStatus, directory_file, file_not_found, mtime_of, is_absent, is_taken, slash,
  is_below, is_under, has_slash, is_plain,
}
use storage_framework.Local.Lawful.{IsBounded, is_failure, All, IsLawful}

abbrev pub path_bound : ℕ
path_bound = 4096

unfoldable pub mem : Text → List Text → Bool
mem q [] = false
mem q (p ∷ s) = text_eq q p || mem q s

unfoldable pub remove : Text → List Text → List Text
remove p [] = []
remove p (q ∷ s) = let rest : List Text = remove p s in if is_under p q then rest else q ∷ rest

unfoldable pub child : Text → Text → Text
child dir n = dir ++ (slash ++ n)

unfoldable pub last_name : Text → Text
last_name [] = []
last_name (c ∷ s) = let rest : Text = last_name s in if has_slash (c ∷ s) then rest else c ∷ s

unfoldable pub parent : Text → Text
parent [] = []
parent (c ∷ s) = let rest : Text = parent s in if has_slash s then c ∷ rest else []

unfoldable pub children : Text → List Text → List Text
children p [] = []
children p (q ∷ s) =
    let rest : List Text = children p s in
    if text_eq (parent q) p && (is_plain (last_name q) && ltb (length p) (length q))
    then q ∷ rest
    else rest

-- Longer than all paths together.
unfoldable pub total : List Text → ℕ
total [] = 0
total (p ∷ s) = length p + total s

unfoldable pub filler : ℕ → Text
filler zero = text "x"
filler (suc n) = 120 ∷ filler n

unfoldable pub fresh : List Text → Text → Text
unfolding total filler
fresh s m = text "t" ++ filler (total s)

unfoldable pub failed : Text → FilesystemError
failed p = record { path1 = p; path2 = []; description = text "failed"; code = pos 5 }

unfoldable pub folder_status : Bool → FileStatus
folder_status true = record { type = directory_file; owner_write = true; owner_exe = true }
folder_status false = record { type = file_not_found; owner_write = false; owner_exe = false }

unfoldable pub status_of : List Text → Text → Result FileStatus
unfolding mem folder_status failed
status_of s p = if ltb path_bound (length p) then fails (failed p) else ok (folder_status (mem p s))

unfoldable pub canonical_of : List Text → Text → Result Text
unfolding mem failed
canonical_of s p = if mem p s then ok p else fails (failed p)

unfoldable pub make : List Text → Text → Result (Unit {0}) × List Text
make s p = (ok tt, p ∷ s)

unfoldable pub copy_dir : List Text → Text → Text → Result (Unit {0}) × List Text
unfolding mem failed
copy_dir s a b =
    if mem b s || ltb path_bound (length b) then (fails (failed b), s) else (ok tt, b ∷ s)

-- Only an empty folder is renamed.
unfoldable pub rename_to : List Text → Text → Text → Result (Unit {0}) × List Text
unfolding remove
rename_to s a b = (ok tt, b ∷ remove a s)

abbrev pub folders : FileSystem
folders = record {
  State = List Text;
  Node = Bool;
  at = λ s p. mem p s;
  place = λ s p. p;
  append = child;
  filename = last_name;
  parent_path = parent;
  path_eq = text_eq;
  path_max = path_bound;
  canonical = canonical_of;
  status = status_of;
  entries = λ s p. ok (children p s);
  stat = λ s p. mtime_of (pos 1) 5;
  file_size = λ s p. fails (failed p);
  space = λ s p. ok (record { capacity = 10; available = 4 });
  unique_path = fresh;
  create_directory = make;
  create_directories = make;
  remove_all = λ s p. (ok tt, remove p s);
  rename = rename_to;
  copy_file = λ s a b. (fails (failed a), s);
  copy_directory = copy_dir;
}

abbrev pub start : List Text
start = text "/r" ∷ text "/r/a" ∷ text "/r/a/b" ∷ text "/out" ∷ []
