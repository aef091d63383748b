-- ===== src/Examples/Models.antt =====
-- Simple models of the QtDBus and QtNetwork classes that the code uses: the hypotheses on them hold.
use storage_framework.Base.{
  ℕ, Bool, false, not, ◌&&◌, ◌||◌, ◌≡◌, refl, Option, some, List, [], ◌∷◌, ◌++◌, if◌then◌else◌,
  length, arith,
}
use storage_framework.Base.Text.{
  Text, text_eq, text_eq→eq, text_eq_refl, starts_with, starts_with-append,
}
use storage_framework.Base.Int.{ℤ, pos}
use storage_framework.Errors.Marshal.{Variant, str, int, dbus_error_prefix}
use storage_framework.Errors.Unmarshal.{DbusAccess, get_elem?}
use storage_framework.Jobs.Pending.{ServiceWatcher}
use storage_framework.Client.Socket.{Socket}

abbrev as_text : Option Variant → Text
as_text (some (str t)) = t
as_text _ = []

abbrev as_int : Option Variant → ℤ
as_int (some (int i)) = i
as_int _ = pos 0

pub as_text_lem :
    (args : List Variant) (n : ℕ) (t : Text)
    → get_elem? args n ≡ some (str t)
    → as_text (get_elem? args n) ≡ t
as_text_lem args n t h = rw h

pub as_int_lem :
    (args : List Variant) (n : ℕ) (i : ℤ)
    → get_elem? args n ≡ some (int i)
    → as_int (get_elem? args n) ≡ i
as_int_lem args n i h = rw h

abbrev pub list_access : DbusAccess
list_access = record {
  text_at = λ args n. as_text (get_elem? args n);
  int_at = λ args n. as_int (get_elem? args n);
  is_other = λ t. starts_with t dbus_error_prefix;
  text_at_lem = as_text_lem;
  int_at_lem = as_int_lem;
  is_other-prefix = starts_with-append dbus_error_prefix;
}

abbrev contains : List Text → Text → Bool
contains [] m = false
contains (n ∷ ns) m = text_eq n m || contains ns m

abbrev remove : Text → List Text → List Text
remove n [] = []
remove n (m ∷ ms) = if text_eq n m then remove n ms else m ∷ remove n ms

pub contains-remove :
    (n m : Text) (w : List Text) → contains (remove n w) m ≡ (not (text_eq n m) && contains w m)
contains-remove n m [] = ground arith
contains-remove n m (k ∷ w) =
    ground (arith, contains-remove n m w, text_eq→eq n k, text_eq→eq k m, text_eq_refl n)

abbrev pub list_watcher : ServiceWatcher
list_watcher = record {
  State = List Text;
  add_watched = λ n w. n ∷ w;
  remove_watched = remove;
  watches = contains;
  watches-add = λ n m w. refl;
  watches-remove = contains-remove;
}

abbrev pub list_socket : Socket
list_socket = record {
  State = List ℕ;
  unconnected = [];
  set_descriptor = λ fd s. [];
  write = λ d s. (pos (length d), s ++ d);
  disconnect_from_server = λ s. s;
  abort = λ s. [];
  sent = λ s. s;
  sent-set_descriptor = λ fd s. refl;
  sent-write = λ d s h. refl;
}
