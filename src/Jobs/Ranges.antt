-- ===== src/Jobs/Ranges.antt =====
-- The entries of one client in a map of jobs: how many there are, and that the loop of
-- `service_disconnected` takes off these and no other.
use storage_framework.Base.{
  ℕ, ◌+◌, true, false, ◌≡◌, refl, none, some, List, [], ◌∷◌, if◌then◌else◌, arith,
}
use storage_framework.Base.Text.{
  Text, text_eq, text_lt, text_eq→eq, text_eq_refl, text_lt_trans, text_lt_irrefl, text_lt-empty,
  text_lt_total,
}
use storage_framework.Base.Key.{pair_key, pair_eq→≡}
use storage_framework.Base.Dict.{Dict, lookup, emplace, erase, Above, IsOrdered}
use storage_framework.Jobs.Pending.{JobId, take_client, from_lower_bound}

module _ {J : Type 0} where
  unfoldable pub count_of : Text → Dict JobId J → ℕ
  count_of n [] = 0
  count_of n ((k, job) ∷ m) = (if text_eq k.0 n then 1 else 0) + count_of n m

  unfoldable pub jobs_of : Text → Dict JobId J → List J
  jobs_of n [] = []
  jobs_of n ((k, job) ∷ m) = if text_eq k.0 n then job ∷ jobs_of n m else jobs_of n m

  unfoldable pub others : Text → Dict JobId J → Dict JobId J
  others n [] = []
  others n ((k, job) ∷ m) = if text_eq k.0 n then others n m else (k, job) ∷ others n m

  pub count_of-emplace :
      (n : Text) (k : JobId) (job : J) (m : Dict JobId J)
      → lookup k m ≡ none
      → count_of n (emplace k job m) ≡ (if text_eq k.0 n then 1 else 0) + count_of n m
  unfolding count_of lookup emplace
  count_of-emplace n k job [] h = refl
  count_of-emplace n k job ((j, w) ∷ m) h = ground (arith, count_of-emplace n k job m)

  pub count_of-erase :
      (n : Text) (k : JobId) (m : Dict JobId J) {job : J}
      → lookup k m ≡ some job
      → count_of n m ≡ (if text_eq k.0 n then 1 else 0) + count_of n (erase k m)
  unfolding count_of lookup erase
  count_of-erase n k [] h = cc
  count_of-erase n k ((j, w) ∷ m) {job} h =
      ground (arith, count_of-erase n k m {job = job}, pair_eq→≡ j k)

  -- After a key of a later client there is no entry of the client.
  abbrev Later : Text → Dict JobId J → Type 0
  Later n [] = Unit
  Later n ((k, job) ∷ m) = (text_lt n k.0 ≡ true) × Later n m

  Above→Later :
      (n : Text) (k : JobId) (m : Dict JobId J) → text_lt n k.0 ≡ true → Above k m → Later n m
  Above→Later n k [] h a = tt
  Above→Later n k ((j, w) ∷ m) h a =
      (ground (arith, text_lt_trans n k.0 j.0, text_eq→eq k.0 j.0), Above→Later n k m h a.1)

  take_client-Later : (n : Text) (m : Dict JobId J) → Later n m → take_client n m ≡ (m, [])
  unfolding take_client
  take_client-Later n [] l = refl
  take_client-Later n ((k, w) ∷ m) l = ground (arith, text_eq→eq k.0 n, text_lt_irrefl n)

  others-Later : (n : Text) (m : Dict JobId J) → Later n m → others n m ≡ m
  unfolding others
  others-Later n [] l = refl
  others-Later n ((k, w) ∷ m) l =
      ground (arith, others-Later n m l.1, text_eq→eq k.0 n, text_lt_irrefl n)

  jobs_of-Later : (n : Text) (m : Dict JobId J) → Later n m → jobs_of n m ≡ []
  unfolding jobs_of
  jobs_of-Later n [] l = refl
  jobs_of-Later n ((k, w) ∷ m) l =
      ground (arith, jobs_of-Later n m l.1, text_eq→eq k.0 n, text_lt_irrefl n)

  -- No key of the map belongs to an earlier client.
  abbrev NotEarlier : Text → Dict JobId J → Type 0
  NotEarlier n [] = Unit
  NotEarlier n ((k, job) ∷ m) = (text_lt k.0 n ≡ false) × NotEarlier n m

  Above→NotEarlier :
      (n : Text) (k : JobId) (m : Dict JobId J) → text_lt k.0 n ≡ false → Above k m → NotEarlier n m
  Above→NotEarlier n k [] h a = tt
  Above→NotEarlier n k ((j, w) ∷ m) h a =
      (ground (arith, text_lt_trans k.0 j.0 n, text_eq→eq k.0 j.0), Above→NotEarlier n k m h a.1)

  take_client-IsOrdered :
      (n : Text) (m : Dict JobId J)
      → IsOrdered m
      → NotEarlier n m
      → take_client n m ≡ (others n m, jobs_of n m)
  unfolding take_client others jobs_of
  take_client-IsOrdered n [] s e = refl
  take_client-IsOrdered n ((k, w) ∷ m) s e = ground (
    arith,
    take_client-IsOrdered n m s.1 e.1,
    text_lt_total k.0 n,
    Above→Later n k m,
    others-Later n m,
    jobs_of-Later n m,
  )

  -- Over an ordered map the loop takes off exactly the client's entries.
  pub from_lower_bound-IsOrdered :
      (n : Text) (m : Dict JobId J) → IsOrdered m → from_lower_bound n m ≡ (others n m, jobs_of n m)
  unfolding from_lower_bound others jobs_of
  from_lower_bound-IsOrdered n [] s = refl
  from_lower_bound-IsOrdered n ((k, w) ∷ m) s = ground (
    arith,
    from_lower_bound-IsOrdered n m s.1,
    take_client-IsOrdered n ((k, w) ∷ m) s,
    text_lt-empty k.1,
    Above→NotEarlier n k m,
    text_eq→eq k.0 n,
    text_lt_irrefl n,
  )

  pub others-IsOrdered : (n : Text) (m : Dict JobId J) → IsOrdered m → IsOrdered (others n m)
  unfolding others
  others-IsOrdered n [] s = tt
  others-IsOrdered n ((k, w) ∷ m) s = ground (arith, others-IsOrdered n m s.1, others-Above k n m)
    where
      others-Above : (k : JobId) (n : Text) (m : Dict JobId J) → Above k m → Above k (others n m)
      others-Above k n [] a = tt
      others-Above k n ((j, w) ∷ m) a = ground (arith, others-Above k n m a.1)

  pub count_of-others :
      (c n : Text) (m : Dict JobId J)
      → count_of n (others c m) ≡ (if text_eq c n then 0 else count_of n m)
  unfolding others count_of
  count_of-others c n [] = ground arith
  count_of-others c n ((k, w) ∷ m) = ground (
    arith,
    count_of-others c n m,
    text_eq→eq k.0 c,
    text_eq→eq k.0 n,
    text_eq→eq c n,
    text_eq_refl c,
  )
