-- ===== src/Base/Key.antt =====
-- Ordered types of keys: texts, and pairs of texts.
use storage_framework.Base.Text.{
  Text, text_eq, text_lt, text_eq→eq, text_eq_refl, text_lt_irrefl, text_lt_trans, text_lt_total,
}
use mathlib.Core.Path.{◌≡◌}
use mathlib.Core.Bool.{Bool, true, false, ◌&&◌, ◌||◌}
use native.Mathlib.Omega.{arith}

-- A strict total order with its equality test.
pub record Key (K : Type 0) : Type 0 where
  pub eq : K → K → Bool
  pub lt : K → K → Bool
  pub eq_refl : (a : K) → eq a a ≡ true
  pub eq→≡ : (a b : K) → eq a b ≡ true → a ≡ b
  pub irrefl : (a : K) → lt a a ≡ false
  pub trans : (a b c : K) → lt a b ≡ true → lt b c ≡ true → lt a c ≡ true
  pub total : (a b : K) → lt a b ≡ false → eq a b ≡ false → lt b a ≡ true

instance abbrev pub text_key : Key Text
text_key = record {
  eq = text_eq;
  lt = text_lt;
  eq_refl = text_eq_refl;
  eq→≡ = text_eq→eq;
  irrefl = text_lt_irrefl;
  trans = text_lt_trans;
  total = text_lt_total;
}

-- `std::pair` compares its first parts first.
abbrev pub pair_eq : Text × Text → Text × Text → Bool
pair_eq (a, b) (c, d) = text_eq a c && text_eq b d

abbrev pub pair_lt : Text × Text → Text × Text → Bool
pair_lt (a, b) (c, d) = text_lt a c || (text_eq a c && text_lt b d)

pub pair_eq_refl : (p : Text × Text) → pair_eq p p ≡ true
pair_eq_refl (a, b) = ground (arith, text_eq_refl a, text_eq_refl b)

pub pair_eq→≡ : (p q : Text × Text) → pair_eq p q ≡ true → p ≡ q
pair_eq→≡ (a, b) (c, d) h = ground (arith, text_eq→eq a c, text_eq→eq b d)

pub pair_lt_irrefl : (p : Text × Text) → pair_lt p p ≡ false
pair_lt_irrefl (a, b) = ground (arith, text_lt_irrefl a, text_lt_irrefl b)

pub pair_lt_trans :
    (p q r : Text × Text) → pair_lt p q ≡ true → pair_lt q r ≡ true → pair_lt p r ≡ true
pair_lt_trans (a, b) (c, d) (e, f) h k = ground (
  arith,
  text_lt_trans a c e,
  text_lt_trans b d f,
  text_eq→eq a c,
  text_eq→eq c e,
  text_eq_refl a,
  text_eq_refl c,
)

text_eq_sym : (a b : Text) → text_eq a b ≡ true → text_eq b a ≡ true
text_eq_sym a b h = ground (arith, text_eq→eq a b, text_eq_refl a)

pub pair_lt_total :
    (p q : Text × Text) → pair_lt p q ≡ false → pair_eq p q ≡ false → pair_lt q p ≡ true
pair_lt_total (a, b) (c, d) h k =
    ground (arith, text_lt_total a c, text_lt_total b d, text_eq_sym a c)

instance abbrev pub pair_key : Key (Text × Text)
pair_key = record {
  eq = pair_eq;
  lt = pair_lt;
  eq_refl = pair_eq_refl;
  eq→≡ = pair_eq→≡;
  irrefl = pair_lt_irrefl;
  trans = pair_lt_trans;
  total = pair_lt_total;
}
