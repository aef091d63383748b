-- ===== src/Local/Lawful.antt =====
-- The documented behaviour of boost::filesystem on which the local provider relies. Its paths lead to
-- directory entries, its operations change what they name and nothing else.
use storage_framework.Base.{◌<◌, Bool, true, false, ◌≡◌, List, [], ◌∷◌, length, is_empty}
use storage_framework.Base.Text.{Text, text_eq}
use storage_framework.Local.Outcome.{Result, ok, fails}
use storage_framework.Local.FileSystem.{
  FileSystem, IsReal, IsAbsent, is_absent, IsFree, SameAt, StaysReal, is_under, is_below, is_plain,
  slash,
}

abbrev pub All : {A : Type 0} → (A → Type 0) → List A → Type 0
All P [] = Unit
All P (x ∷ xs) = P x × All P xs

-- An operation that names one entry changes at most that entry and what is below it.
abbrev pub ChangesOnly : (fs : FileSystem) → fs.State → Text → fs.State → Type 0
ChangesOnly fs s p t = (q : Text) → is_under p q ≡ false → SameAt fs s t q

pub record IsLawful (fs : FileSystem) : Type 0 where
  pub place-real : (s : fs.State) (p : Text) → IsReal fs s p → fs.place s p ≡ p
  pub place-append :
      (s : fs.State) (dir n : Text)
      → IsReal fs s dir
      → text_eq dir slash ≡ false
      → is_empty n ≡ false
      → fs.parent_path n ≡ []
      → IsAbsent fs s (fs.append dir n)
      → is_below dir (fs.place s (fs.append dir n)) ≡ true
  -- A plain name in a real directory names the entry itself.
  pub place-plain :
      (s : fs.State) (dir n : Text)
      → IsReal fs s dir
      → is_plain n ≡ true
      → fs.place s (fs.append dir n) ≡ fs.append dir n
  -- In a real directory the entry that a name leads to does not depend on what else is there.
  pub place_same :
      (s t : fs.State) (dir n : Text)
      → IsReal fs s dir
      → IsReal fs t dir
      → fs.place t (fs.append dir n) ≡ fs.place s (fs.append dir n)
  pub append-plain :
      (s : fs.State) (dir n : Text)
      → IsReal fs s dir
      → text_eq dir slash ≡ false
      → is_plain n ≡ true
      → is_below dir (fs.append dir n) ≡ true
  pub filename-empty : fs.filename [] ≡ []
  pub parent_path-plain : (n : Text) → is_plain n ≡ true → fs.parent_path n ≡ []
  pub create_directory_lem :
      (s : fs.State) (p : Text) → ChangesOnly fs s (fs.place s p) (fs.create_directory s p).1
  pub create_directories_lem :
      (s : fs.State) (dir n : Text)
      → IsReal fs s dir
      → ChangesOnly fs s
          (fs.place s (fs.append dir n))
          (fs.create_directories s (fs.append dir n)).1
  pub remove_all_lem :
      (s : fs.State) (p : Text) → ChangesOnly fs s (fs.place s p) (fs.remove_all s p).1
  pub rename_lem :
      (s : fs.State) (a b q : Text)
      → is_under (fs.place s a) q ≡ false
      → is_under (fs.place s b) q ≡ false
      → SameAt fs s (fs.rename s a b).1 q
  pub copy_file_lem :
      (s : fs.State) (a b : Text) → ChangesOnly fs s (fs.place s b) (fs.copy_file s a b).1
  pub copy_directory_lem :
      (s : fs.State) (a b : Text) → ChangesOnly fs s (fs.place s b) (fs.copy_directory s a b).1
  -- Nothing is overwritten.
  pub copy_file_existing :
      (s : fs.State) (a b : Text) → is_absent (fs.status s b) ≡ false → (fs.copy_file s a b).1 ≡ s
  pub copy_directory_existing :
      (s : fs.State) (a b : Text)
      → is_absent (fs.status s b) ≡ false
      → (fs.copy_directory s a b).1 ≡ s
  -- A directory that was made in a real one is real, and what is real stays so when entries are added.
  pub create_directories-real :
      (s : fs.State) (dir n : Text)
      → IsReal fs s dir
      → is_plain n ≡ true
      → IsFree fs s (fs.append dir n)
      → (fs.create_directories s (fs.append dir n)).0 ≡ ok tt
      → IsReal fs (fs.create_directories s (fs.append dir n)).1 (fs.append dir n)
  pub copy_directory-real :
      (s : fs.State) (a dir n : Text)
      → IsReal fs s dir
      → is_plain n ≡ true
      → (fs.copy_directory s a (fs.append dir n)).0 ≡ ok tt
      → IsReal fs (fs.copy_directory s a (fs.append dir n)).1 (fs.append dir n)
  pub create_directories-keeps :
      (s : fs.State) (p : Text) → StaysReal fs s (fs.create_directories s p).1
  pub copy_directory-keeps :
      (s : fs.State) (a b : Text) → StaysReal fs s (fs.copy_directory s a b).1
  pub copy_file-keeps : (s : fs.State) (a b : Text) → StaysReal fs s (fs.copy_file s a b).1
  pub entries_plain :
      (s : fs.State) (p : Text) (es : List Text)
      → fs.entries s p ≡ ok es
      → All (λ e. is_plain (fs.filename e) ≡ true) es
  pub unique_path_plain : (s : fs.State) (m : Text) → is_plain (fs.unique_path s m) ≡ true
  pub unique_path_free :
      (s : fs.State) (dir m : Text)
      → IsReal fs s dir
      → IsFree fs s (fs.append dir (fs.unique_path s m))

abbrev pub is_failure : {A : Type 0} → Result A → Bool
is_failure (ok a) = false
is_failure (fails e) = true

-- Names in a directory are longer than its own, and the system refuses a path that is too long
-- (ENAMETOOLONG).
pub record IsBounded (fs : FileSystem) : Type 0 where
  pub entries_longer :
      (s : fs.State) (p : Text) (es : List Text)
      → fs.entries s p ≡ ok es
      → All (λ e. length p < length e) es
  pub too_long :
      (s : fs.State) (p : Text) → fs.path_max < length p → is_failure (fs.status s p) ≡ true
