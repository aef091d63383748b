-- ===== src/Client/Items/Order.antt =====
-- The comparison of items: src/qt/internal/ItemImpl.cpp.
use storage_framework.Base.{ℕ, Bool, true, false, not, ◌&&◌, ◌≡◌, if◌then◌else◌, arith}
use storage_framework.Base.Text.{
  Text, text_eq, text_lt, text_eq→eq, text_lt_irrefl, text_lt_trans, text_lt_total,
}
use storage_framework.Client.Accounts.{account_eq, account_lt, account_gt, account_hash}
use storage_framework.Client.Items.{Item}
use storage_framework.Client.Accounts.{account_le}
use storage_framework.Client.Accounts.Order.{
  account_lt_irrefl, account_lt_total, account_lt_trans, account_lt-eq, account_eq_trans,
  account_eq_sym, account_hash-eq,
}

unfoldable pub item_eq : Item → Item → Bool
item_eq l r =
    if l.is_valid
    then r.is_valid && (account_eq l.account r.account && text_eq l.md.item_id r.md.item_id)
    else not r.is_valid

unfoldable pub item_lt : Item → Item → Bool
item_lt l r =
    if not l.is_valid
    then r.is_valid
    else if not r.is_valid
    then false
    else if account_lt l.account r.account
    then true
    else if account_gt l.account r.account
    then false
    else text_lt l.md.item_id r.md.item_id

module _ (hash_combine : ℕ → ℕ → ℕ) (q_hash : Text → ℕ) where
  unfoldable pub item_hash : Item → ℕ
  item_hash i =
      if not i.is_valid
      then 0
      else hash_combine (hash_combine 0 (account_hash hash_combine q_hash i.account))
          (q_hash i.md.item_id)

item_lt_irrefl : (a b : Item) → item_eq a b ≡ true → item_lt a b ≡ false
unfolding item_eq item_lt
item_lt_irrefl a b h = ground (
  arith,
  account_lt_irrefl a.account b.account,
  text_eq→eq a.md.item_id b.md.item_id,
  text_lt_irrefl b.md.item_id,
)

item_lt_total : (a b : Item) → item_lt a b ≡ false → item_eq a b ≡ false → item_lt b a ≡ true
unfolding item_eq item_lt account_gt account_le
item_lt_total a b h k = ground (
  arith,
  account_lt_total a.account b.account,
  account_lt_irrefl a.account b.account,
  account_eq_sym a.account b.account,
  account_lt_irrefl b.account a.account,
  text_lt_total a.md.item_id b.md.item_id,
)

item_lt_trans : (a b c : Item) → item_lt a b ≡ true → item_lt b c ≡ true → item_lt a c ≡ true
unfolding item_lt account_gt account_le
item_lt_trans a b c h k = ground (
  arith,
  account_lt_trans a.account b.account c.account,
  account_lt-eq a.account b.account c.account,
  account_lt-eq b.account c.account a.account,
  account_eq_trans a.account b.account c.account,
  text_lt_trans a.md.item_id b.md.item_id c.md.item_id,
)

module _ (hash_combine : ℕ → ℕ → ℕ) (q_hash : Text → ℕ) where
  -- Items can be sorted and hashed: one that equals another is not less and has its hash, of two that
  -- differ one is less, and the comparison is transitive, over the accounts and the invalid items too.
  pub item_lt-item_eq :
      (a b c : Item)
      → (item_eq a b ≡ true
          → (item_lt a b ≡ false)
            × (item_hash hash_combine q_hash a ≡ item_hash hash_combine q_hash b))
        × (item_lt a b ≡ false → item_eq a b ≡ false → item_lt b a ≡ true)
        × (item_lt a b ≡ true → item_lt b c ≡ true → item_lt a c ≡ true)
  unfolding item_eq item_hash
  item_lt-item_eq a b c = (
    λ h. (
      item_lt_irrefl a b h,
      ground (
        arith,
        account_hash-eq hash_combine q_hash a.account b.account,
        text_eq→eq a.md.item_id b.md.item_id,
      ),
    ),
    item_lt_total a b,
    item_lt_trans a b c,
  )
