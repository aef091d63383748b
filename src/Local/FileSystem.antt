-- ===== src/Local/FileSystem.antt =====
-- What src/local-provider uses of boost::filesystem and stat(2), with what it relies on.
use storage_framework.Base.{
  ℕ, Bool, true, false, not, ◌&&◌, ◌||◌, ◌≡◌, List, [], ◌∷◌, ◌++◌, ◌==◌, is_empty,
}
use storage_framework.Base.Text.{Text, text, text_eq, starts_with}
use storage_framework.Base.Int.{ℤ}
use storage_framework.Local.Outcome.{Result, ok, fails}

pub data FileType : Type 0 where
  file_not_found regular_file directory_file other_file : FileType

-- `owner_write` and `owner_exe` are two of the permissions.
pub record FileStatus : Type 0 where
  pub type : FileType
  pub owner_write : Bool
  pub owner_exe : Bool

pub data Stat : Type 0 where
  no_stat : ℤ → Text → Stat
  mtime_of : ℤ → ℕ → Stat

pub record Space : Type 0 where
  pub capacity : ℕ
  pub available : ℕ

abbrev pub is_regular_file : FileStatus → Bool
is_regular_file st = elim st.type [ regular_file ↦ true | _ ↦ false ]

abbrev pub is_directory : FileStatus → Bool
is_directory st = elim st.type [ directory_file ↦ true | _ ↦ false ]

abbrev pub exists : FileStatus → Bool
exists st = elim st.type [ file_not_found ↦ false | _ ↦ true ]

abbrev pub slash : Text
slash = text "/"

-- `q` is `p`, or lies below it.
unfoldable pub is_below : Text → Text → Bool
is_below p q = starts_with q (p ++ slash)

unfoldable pub is_under : Text → Text → Bool
unfolding is_below
is_under p q = text_eq q p || is_below p q

-- A single component other than "." and "..".
unfoldable pub has_slash : Text → Bool
has_slash [] = false
has_slash (c ∷ s) = (c == 47) || has_slash s

abbrev pub is_plain : Text → Bool
is_plain n =
    not (is_empty n)
    && (not (has_slash n) && (not (text_eq n (text ".")) && not (text_eq n (text ".."))))

-- `place` is the directory entry that a path leads to (path_resolution(7)) and `at` what stands there,
-- a symbolic link not followed. The code calls neither.
pub record FileSystem : Type 1 where
  pub State : Type 0
  pub Node : Type 0
  pub at : State → Text → Node
  pub place : State → Text → Text
  pub append : Text → Text → Text
  pub filename : Text → Text
  pub parent_path : Text → Text
  pub path_eq : Text → Text → Bool
  pub path_max : ℕ
  pub canonical : State → Text → Result Text
  pub status : State → Text → Result FileStatus
  pub entries : State → Text → Result (List Text)
  pub stat : State → Text → Stat
  pub file_size : State → Text → Result ℕ
  pub space : State → Text → Result Space
  pub unique_path : State → Text → Text
  pub create_directory : State → Text → Result (Unit {0}) × State
  pub create_directories : State → Text → Result (Unit {0}) × State
  pub remove_all : State → Text → Result (Unit {0}) × State
  pub rename : State → Text → Text → Result (Unit {0}) × State
  pub copy_file : State → Text → Text → Result (Unit {0}) × State
  pub copy_directory : State → Text → Text → Result (Unit {0}) × State

-- A path is real if it is its own canonical form.
abbrev pub IsReal : (fs : FileSystem) → fs.State → Text → Type 0
IsReal fs s p = fs.canonical s p ≡ ok p

-- Nothing is found at a path.
abbrev pub is_absent : Result FileStatus → Bool
is_absent (ok st) = not (exists st)
is_absent (fails e) = false

abbrev pub is_taken : Result FileStatus → Bool
is_taken (ok st) = exists st
is_taken (fails e) = false

abbrev pub IsAbsent : (fs : FileSystem) → fs.State → Text → Type 0
IsAbsent fs s p = is_absent (fs.status s p) ≡ true

-- Nothing is known to be at a path: a status that fails says nothing.
abbrev pub IsFree : (fs : FileSystem) → fs.State → Text → Type 0
IsFree fs s p = is_taken (fs.status s p) ≡ false

-- `q` has what it had.
abbrev pub SameAt : (fs : FileSystem) → fs.State → fs.State → Text → Type 0
SameAt fs s t q = fs.at t q ≡ fs.at s q

-- Each path stays real.
abbrev pub StaysReal : (fs : FileSystem) → fs.State → fs.State → Type 0
StaysReal fs s t = (p : Text) → IsReal fs s p → IsReal fs t p
