-- ===== src/Client/Accounts/Order.antt =====
-- The comparisons of accounts: src/internal/AccountDetails.cpp, src/qt/internal/AccountImpl.cpp.
use storage_framework.Base.{ℕ, true, false, ◌≡◌, arith}
use storage_framework.Base.Text.{
  Text, text_lt, text_eq→eq, text_eq_refl, text_lt_irrefl, text_lt_trans, text_lt_total,
}
use storage_framework.Client.Accounts.{
  AccountDetails, Account, details_eq, details_lt, account_eq, account_lt, account_hash,
}

-- Two texts of which neither is less are one.
pub text_same : (s t : Text) → text_lt s t ≡ false → text_lt t s ≡ false → s ≡ t
text_same s t h k = ground (arith, text_lt_total s t h, text_eq→eq s t)

pub text_lt_asym : (s t : Text) → text_lt s t ≡ true → text_lt t s ≡ false
text_lt_asym s t h = ground (arith, text_lt_trans s t s h, text_lt_irrefl s)

pub details_lt_irrefl : (a b : AccountDetails) → details_eq a b ≡ true → details_lt a b ≡ false
unfolding details_eq details_lt
details_lt_irrefl a b h = ground (
  arith,
  text_eq→eq a.service_id b.service_id,
  text_eq→eq a.display_name b.display_name,
  text_lt_irrefl b.service_id,
  text_lt_irrefl b.display_name,
)

pub details_lt_total :
    (a b : AccountDetails) → details_lt a b ≡ false → details_eq a b ≡ false → details_lt b a ≡ true
unfolding details_eq details_lt
details_lt_total a b h k = ground (
  arith,
  text_same a.service_id b.service_id,
  text_eq_refl b.service_id,
  text_lt_total a.display_name b.display_name,
)

pub details_lt_trans :
    (a b c : AccountDetails) → details_lt a b ≡ true → details_lt b c ≡ true → details_lt a c ≡ true
unfolding details_lt
details_lt_trans a b c h k = ground (
  arith,
  text_same a.service_id b.service_id,
  text_same b.service_id c.service_id,
  text_lt_trans a.service_id b.service_id c.service_id,
  text_lt_asym a.service_id c.service_id,
  text_lt_irrefl c.service_id,
  text_lt_trans a.display_name b.display_name c.display_name,
)

-- What compares as equal is less than the same, and has the same less than it.
pub details_lt-eq :
    (a b c : AccountDetails)
    → details_eq a b ≡ true
    → (details_lt a c ≡ details_lt b c) × (details_lt c a ≡ details_lt c b)
unfolding details_eq details_lt
details_lt-eq a b c h = (
  ground (arith, text_eq→eq a.service_id b.service_id, text_eq→eq a.display_name b.display_name),
  ground (arith, text_eq→eq a.service_id b.service_id, text_eq→eq a.display_name b.display_name),
)

details_eq_sym : (a b : AccountDetails) → details_eq a b ≡ true → details_eq b a ≡ true
unfolding details_eq
details_eq_sym a b h = ground (
  arith,
  text_eq→eq a.service_id b.service_id,
  text_eq→eq a.display_name b.display_name,
  text_eq_refl b.service_id,
  text_eq_refl b.display_name,
)

details_eq_trans :
    (a b c : AccountDetails) → details_eq a b ≡ true → details_eq b c ≡ true → details_eq a c ≡ true
unfolding details_eq
details_eq_trans a b c h k =
    ground (arith, text_eq→eq a.service_id b.service_id, text_eq→eq a.display_name b.display_name)

pub account_lt_irrefl : (a b : Account) → account_eq a b ≡ true → account_lt a b ≡ false
unfolding account_eq account_lt
account_lt_irrefl a b h = ground (arith, details_lt_irrefl a.details b.details)

pub account_lt_total :
    (a b : Account) → account_lt a b ≡ false → account_eq a b ≡ false → account_lt b a ≡ true
unfolding account_eq account_lt
account_lt_total a b h k = ground (arith, details_lt_total a.details b.details)

pub account_lt_trans :
    (a b c : Account) → account_lt a b ≡ true → account_lt b c ≡ true → account_lt a c ≡ true
unfolding account_lt
account_lt_trans a b c h k = ground (arith, details_lt_trans a.details b.details c.details)

pub account_eq_sym : (a b : Account) → account_eq a b ≡ true → account_eq b a ≡ true
unfolding account_eq
account_eq_sym a b h = ground (arith, details_eq_sym a.details b.details)

pub account_eq_trans :
    (a b c : Account) → account_eq a b ≡ true → account_eq b c ≡ true → account_eq a c ≡ true
unfolding account_eq
account_eq_trans a b c h k = ground (arith, details_eq_trans a.details b.details c.details)

pub account_lt-eq :
    (a b c : Account)
    → account_eq a b ≡ true
    → (account_lt a c ≡ account_lt b c) × (account_lt c a ≡ account_lt c b)
unfolding account_eq account_lt
account_lt-eq a b c h = (
  ground (arith, (details_lt-eq a.details b.details c.details)),
  ground (arith, (details_lt-eq a.details b.details c.details)),
)

module _ (hash_combine : ℕ → ℕ → ℕ) (q_hash : Text → ℕ) where
  pub account_hash-eq :
      (a b : Account)
      → account_eq a b ≡ true
      → account_hash hash_combine q_hash a ≡ account_hash hash_combine q_hash b
  unfolding account_eq account_hash details_eq
  account_hash-eq a b h = ground (
    arith,
    text_eq→eq a.details.service_id b.details.service_id,
    text_eq→eq a.details.display_name b.details.display_name,
  )
