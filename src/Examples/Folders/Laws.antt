-- ===== src/Examples/Folders/Laws.antt =====
-- The file system of folders has the documented behaviour.
use mathlib.Core.List.{append_assoc}
use storage_framework.Base.{
  subst, length-append, Bool-cases, inl, inr, ◌↔◌, ℕ, zero, suc, ◌<◌, true, false, ◌&&◌, ◌||◌, ◌≡◌,
  ◌∙◌, refl, sym, ap, List, [], ◌∷◌, ◌++◌, ltb, length, arith,
}
use storage_framework.Base.Text.{
  Text, text, text_eq, text_eq_refl, text_eq→eq, starts_with, starts_with-append,
}
use storage_framework.Local.Outcome.{ok, fails}
use storage_framework.Local.FileSystem.{
  is_absent, is_taken, slash, is_below, is_under, has_slash, is_plain,
}
use storage_framework.Local.Lawful.{IsBounded, is_failure, All, IsLawful}
use storage_framework.Examples.Folders.{
  path_bound, mem, remove, child, last_name, parent, children, total, filler, fresh, folder_status,
  status_of, canonical_of, make, copy_dir, rename_to, folders,
}

is_below-child : (dir n : Text) → is_below dir (child dir n) ≡ true
unfolding is_below child
is_below-child dir n =
    ap (λ t. starts_with t (dir ++ slash)) (sym (append_assoc dir slash n))
    ∙ starts_with-append (dir ++ slash) n

parent_lem : (n : Text) → has_slash n ≡ false → parent n ≡ []
unfolding has_slash parent
parent_lem [] h = refl
parent_lem (c ∷ s) h = ground arith

is_under-mem : (p q : Text) → is_under p q ≡ false → text_eq q p ≡ false
unfolding is_under
is_under-mem p q h = ground arith

mem-make : (s : List Text) (p q : Text) → is_under p q ≡ false → mem q (p ∷ s) ≡ mem q s
unfolding mem
mem-make s p q h = ground (arith, is_under-mem p q h)

mem-remove : (s : List Text) (p q : Text) → is_under p q ≡ false → mem q (remove p s) ≡ mem q s
unfolding mem remove
mem-remove [] p q h = refl
mem-remove (x ∷ s) p q h = ground (arith, mem-remove s p q h, text_eq→eq q x)

real_iff : (s : List Text) (p : Text) → (canonical_of s p ≡ ok p) ↔ (mem p s ≡ true)
unfolding canonical_of
real_iff s p = (λ h. ground arith, λ h. ground arith)

mem-first : (s : List Text) (p : Text) → mem p (p ∷ s) ≡ true
unfolding mem
mem-first s p = ground (arith, text_eq_refl p)

mem-rest : (s : List Text) (p q : Text) → mem q s ≡ true → mem q (p ∷ s) ≡ true
unfolding mem
mem-rest s p q h = ground arith

keeps : (s : List Text) (p q : Text) → canonical_of s q ≡ ok q → canonical_of (p ∷ s) q ≡ ok q
keeps s p q h = (real_iff (p ∷ s) q).1 (mem-rest s p q ((real_iff s q).0 h))

children_plain :
    (p : Text) (s : List Text) → All (λ e. is_plain (last_name e) ≡ true) (children p s)
unfolding children
children_plain p [] = tt
children_plain p (q ∷ s) =
    elim (Bool-cases
      (text_eq (parent q) p && (is_plain (last_name q) && ltb (length p) (length q)))) [
        | inl h ↦ rw h ((ground arith, children_plain p s))
        | inr h ↦ rw h (children_plain p s)
      ]

has_slash-filler : (n : ℕ) → has_slash (filler n) ≡ false
unfolding filler has_slash
has_slash-filler zero = refl
has_slash-filler (suc n) = ground (arith, has_slash-filler n)

fresh_plain : (s : List Text) (m : Text) → is_plain (fresh s m) ≡ true
unfolding fresh has_slash text_eq
fresh_plain s m = ground (arith, has_slash-filler (total s))

length-filler : (n : ℕ) → length (filler n) ≡ suc n
unfolding filler
length-filler zero = refl
length-filler (suc n) = ground (arith, length-filler n)

mem-long : (s : List Text) (q : Text) → total s < length q → mem q s ≡ false
unfolding mem total
mem-long [] q h = refl
mem-long (p ∷ s) q h = ground (arith, text_eq→eq q p, mem-long s q)

fresh_long : (s : List Text) (dir m : Text) → total s < length (child dir (fresh s m))
unfolding fresh child
fresh_long s dir m =
    omega
      (arith, length-append dir (slash ++ (text "t" ++ filler (total s))), length-filler (total s))

copy_dir-lem :
    (s : List Text) (a b q : Text) → is_under b q ≡ false → mem q (copy_dir s a b).1 ≡ mem q s
unfolding copy_dir
copy_dir-lem s a b q h = elim (Bool-cases (mem b s || ltb path_bound (length b))) [
  | inl k ↦ rw k refl
  | inr k ↦ rw k (mem-make s b q h)
]

copy_dir-existing :
    (s : List Text) (a b : Text) → is_absent (status_of s b) ≡ false → (copy_dir s a b).1 ≡ s
unfolding copy_dir status_of folder_status
copy_dir-existing s a b h = elim (Bool-cases (mem b s || ltb path_bound (length b))) [
  | inl k ↦ rw k refl
  | inr k ↦ absurd (ground arith)
]

copy_dir-real :
    (s : List Text) (a b : Text)
    → (copy_dir s a b).0 ≡ ok tt
    → canonical_of (copy_dir s a b).1 b ≡ ok b
unfolding copy_dir
copy_dir-real s a b h = elim (Bool-cases (mem b s || ltb path_bound (length b))) [
  | inl k ↦ absurd (ground arith)
  | inr k ↦ rw k ((real_iff (b ∷ s) b).1 (mem-first s b))
]

copy_dir-keeps :
    (s : List Text) (a b q : Text)
    → canonical_of s q ≡ ok q
    → canonical_of (copy_dir s a b).1 q ≡ ok q
unfolding copy_dir
copy_dir-keeps s a b q h = elim (Bool-cases (mem b s || ltb path_bound (length b))) [
  | inl k ↦ rw k h
  | inr k ↦ rw k (keeps s b q h)
]

rename_to-lem :
    (s : List Text) (a b q : Text)
    → is_under a q ≡ false
    → is_under b q ≡ false
    → mem q (rename_to s a b).1 ≡ mem q s
unfolding rename_to
rename_to-lem s a b q h k = mem-make (remove a s) b q k ∙ mem-remove s a q h

free_lem : (s : List Text) (p : Text) → mem p s ≡ false → is_taken (status_of s p) ≡ false
unfolding status_of folder_status
free_lem s p h = ground arith

ok_inj : {x y : List Text} → ok x ≡ ok y → x ≡ y
ok_inj h = ap (λ r. elim r [ ok a ↦ a | fails e ↦ [] ]) h

children_longer : (p : Text) (s : List Text) → All (λ e. length p < length e) (children p s)
unfolding children
children_longer p [] = tt
children_longer p (q ∷ s) =
    elim (Bool-cases
      (text_eq (parent q) p && (is_plain (last_name q) && ltb (length p) (length q)))) [
        | inl h ↦ rw h ((ground arith, children_longer p s))
        | inr h ↦ rw h (children_longer p s)
      ]

too_long_lem :
    (s : List Text) (p : Text) → path_bound < length p → is_failure (status_of s p) ≡ true
unfolding status_of
too_long_lem s p h = ground arith

pub folders-IsBounded : IsBounded folders
folders-IsBounded = record {
  entries_longer =
      λ s p es h. subst (All (λ e. length p < length e)) (ok_inj h) (children_longer p s);
  too_long = λ s p h. too_long_lem s p h;
}

pub folders-IsLawful : IsLawful folders
unfolding fresh make last_name
folders-IsLawful = record {
  place-real = λ s p h. refl;
  place-append = λ s dir n r e m o a. is_below-child dir n;
  place-plain = λ s dir n r p. refl;
  place_same = λ s t dir n r u. refl;
  append-plain = λ s dir n r e p. is_below-child dir n;
  filename-empty = refl;
  parent_path-plain = λ n h. parent_lem n (ground arith);
  create_directory_lem = λ s p q h. mem-make s p q h;
  create_directories_lem = λ s dir n r q h. mem-make s (child dir n) q h;
  remove_all_lem = λ s p q h. mem-remove s p q h;
  rename_lem = λ s a b q h k. rename_to-lem s a b q h k;
  copy_file_lem = λ s a b q h. refl;
  copy_directory_lem = λ s a b q h. copy_dir-lem s a b q h;
  copy_file_existing = λ s a b h. refl;
  copy_directory_existing = λ s a b h. copy_dir-existing s a b h;
  create_directories-real =
      λ s dir n r p f k. (real_iff (child dir n ∷ s) (child dir n)).1 (mem-first s (child dir n));
  copy_directory-real = λ s a dir n r p h. copy_dir-real s a (child dir n) h;
  create_directories-keeps = λ s p q r. keeps s p q r;
  copy_directory-keeps = λ s a b q r. copy_dir-keeps s a b q r;
  copy_file-keeps = λ s a b q r. r;
  entries_plain =
      λ s p es h. subst (All (λ e. is_plain (last_name e) ≡ true)) (ok_inj h) (children_plain p s);
  unique_path_plain = λ s m. fresh_plain s m;
  unique_path_free = λ s dir m r. free_lem s _ (mem-long s _ (fresh_long s dir m));
}
