-- ===== src/Local/Below.antt =====
-- Paths below others.
use storage_framework.Base.{true, false, ◌≡◌, refl, [], ◌∷◌, ◌++◌, is_empty, arith}
use storage_framework.Base.Text.{Text, text_eq, starts_with, text_eq→eq, text_eq_refl}
use storage_framework.Local.FileSystem.{slash, is_below, is_under}

pub starts_with_trans :
    (s t u : Text) → starts_with s t ≡ true → starts_with t u ≡ true → starts_with s u ≡ true
unfolding starts_with
starts_with_trans s t [] h k = starts_with_nil s
  where
    starts_with_nil : (s : Text) → starts_with s [] ≡ true
    starts_with_nil [] = refl
    starts_with_nil (x ∷ s) = refl
starts_with_trans s [] (z ∷ u) h k = cc
starts_with_trans [] (y ∷ t) (z ∷ u) h k = cc
starts_with_trans (x ∷ s) (y ∷ t) (z ∷ u) h k = ground (arith, starts_with_trans s t u)

starts_with_prefix : (s t u : Text) → starts_with s (t ++ u) ≡ true → starts_with s t ≡ true
unfolding starts_with
starts_with_prefix [] [] u h = refl
starts_with_prefix (x ∷ s) [] u h = refl
starts_with_prefix [] (y ∷ t) u h = cc
starts_with_prefix (x ∷ s) (y ∷ t) u h = ground (arith, starts_with_prefix s t u)

pub is_below_trans :
    (p q r : Text) → is_below p q ≡ true → is_below q r ≡ true → is_below p r ≡ true
unfolding is_below
is_below_trans p q r h k = starts_with_trans r q (p ++ slash) (starts_with_prefix r q slash k) h

pub is_below_under :
    (p q r : Text) → is_below p q ≡ true → is_under q r ≡ true → is_below p r ≡ true
unfolding is_under
is_below_under p q r h k = ground (arith, text_eq→eq r q, is_below_trans p q r)

pub is_under_below :
    (p q r : Text) → is_under p q ≡ true → is_below q r ≡ true → is_below p r ≡ true
unfolding is_under
is_under_below p q r h k = ground (arith, text_eq→eq q p, is_below_trans p q r)

pub is_under_self : (p : Text) → is_under p p ≡ true
unfolding is_under
is_under_self p = ground (arith, text_eq_refl p)

-- What is under a root other than "/" is not "/".
pub under_ne_slash :
    (root p : Text)
    → is_empty root ≡ false
    → text_eq root slash ≡ false
    → is_under root p ≡ true
    → text_eq p slash ≡ false
unfolding is_under is_below starts_with text_eq
under_ne_slash [] p n s u = cc
under_ne_slash (c ∷ root) [] n s u = refl
under_ne_slash (c ∷ []) (x ∷ []) n s u = ground arith
under_ne_slash (c ∷ d ∷ root) (x ∷ []) n s u = ground arith
under_ne_slash (c ∷ root) (x ∷ y ∷ p) n s u = ground arith
