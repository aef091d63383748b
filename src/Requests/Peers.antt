-- ===== src/Requests/Peers.antt =====
-- src/provider/internal/DBusPeerCache.cpp: the credentials of D-Bus peers, cached in two generations.
pub mod Waiters
pub mod Runs
use storage_framework.Base.{
  ℕ, suc, Bool, true, false, not, ◌&&◌, ◌||◌, ◌≡◌, zero, Option, none, some, List, [], ◌∷◌, ◌++◌,
  map, if◌then◌else◌, ◌==◌, leb, ltb, length, drop, checked,
}
use storage_framework.Base.Text.{Text, text}
use storage_framework.Base.Key.{text_key}
use storage_framework.Base.Dict.{Dict, lookup, emplace, assign, erase}

pub record PeerCredentials : Type 0 where
  pub valid : Bool
  pub uid : ℕ
  pub pid : ℕ
  pub label : Text

-- The bus daemon's answer: an error, or the entries "UnixUserID", "ProcessID" and
-- "LinuxSecurityLabel".
pub data BusReply : Type 0 where
  is_error : BusReply
  entries : ℕ → ℕ → Text → BusReply

abbrev pub take : ℕ → Text → Text
take zero s = []
take (suc n) [] = []
take (suc n) (c ∷ s) = c ∷ take n s

abbrev pub last_is : ℕ → Text → Bool
last_is c [] = false
last_is c (d ∷ []) = c == d
last_is c (d ∷ e ∷ s) = last_is c (e ∷ s)

abbrev pub first_is : ℕ → Text → Bool
first_is c [] = false
first_is c (d ∷ s) = c == d

-- `QByteArray::lastIndexOf`, `none` for -1.
abbrev pub last_index_of : ℕ → Text → Option ℕ
last_index_of c [] = none
last_index_of c (d ∷ s) = elim (last_index_of c s) [
  | some n ↦ some (suc n)
  | none ↦ if c == d then some 0 else none
]

-- 32 is the space, 40 and 41 the parentheses.
without_mode : Text → Text
without_mode label = elim (last_index_of 32 label) [
  | none ↦ label
  | some zero ↦ label
  | some (suc n) ↦
      if last_is 41 label && first_is 40 (drop (suc (suc n)) label)
      then take (suc n) label
      else label
]

-- A label ends with a null byte, and may have a mode in parentheses at its end.
unfoldable pub trim_label : Bool → Text → Option Text
unfolding without_mode
trim_label asserts [] = some []
trim_label asserts (c ∷ s) =
    checked asserts (last_is 0 (c ∷ s)) (without_mode (take (length s) (c ∷ s)))

unfoldable pub invalid : PeerCredentials
invalid = record { valid = false; uid = 0; pid = 0; label = [] }

-- What `received_credentials` makes of the bus daemon's answer.
unfoldable pub credentials_of : Bool → Bool → BusReply → Option PeerCredentials
unfolding trim_label invalid
credentials_of asserts apparmor is_error = some invalid
credentials_of asserts apparmor (entries uid pid label) =
    if apparmor
    then elim (trim_label asserts label) [
      | none ↦ none
      | some l ↦ some (record { valid = true; uid = uid; pid = pid; label = l })
    ]
    else some (record { valid = true; uid = uid; pid = pid; label = text "unconfined" })

-- A waiter is the number of its promise. `calls` are the peers that the bus daemon was asked for, and
-- `told` the promises that were kept, the last first.
pub record PeerCache : Type 0 where
  pub cache : Dict Text PeerCredentials
  pub old_cache : Dict Text PeerCredentials
  pub pending : Dict Text (List ℕ)
  pub calls : List Text
  pub told : List (ℕ × PeerCredentials)

abbrev pub max_cache_size : ℕ
max_cache_size = 50

unfoldable pub construct : PeerCache
construct = record { cache = []; old_cache = []; pending = []; calls = []; told = [] }

-- Its own promise or one more.
ask : Text → ℕ → Option (List ℕ) → PeerCache → PeerCache
ask peer w (some ws) p = record p { pending = assign peer (w ∷ ws) p.pending }
ask peer w none p = record p { pending = emplace peer (w ∷ []) p.pending; calls = peer ∷ p.calls }

-- The entry of the older generation moves to the newer one. The promise is kept with what is read
-- through the reference to the erased entry (`stale`).
move_over : PeerCredentials → Text → ℕ → Option PeerCredentials → PeerCache → PeerCache
unfolding ask
move_over stale peer w (some c) p = record p {
  cache = emplace peer c p.cache;
  old_cache = erase peer p.old_cache;
  told = (w, stale) ∷ p.told;
}
move_over stale peer w none p = ask peer w (lookup peer p.pending) p

get_from : PeerCredentials → Text → ℕ → Option PeerCredentials → PeerCache → PeerCache
unfolding move_over
get_from stale peer w (some c) p = record p { told = (w, c) ∷ p.told }
get_from stale peer w none p = move_over stale peer w (lookup peer p.old_cache) p

unfoldable pub get : PeerCredentials → Text → ℕ → PeerCache → PeerCache
unfolding get_from
get stale peer w p = get_from stale peer w (lookup peer p.cache) p

-- A new generation is begun when the cache has reached its size.
unfoldable pub next_generation : PeerCache → PeerCache
next_generation p =
    if leb max_cache_size (length p.cache)
    then (record p { old_cache = p.cache; cache = [] })
    else p

unfoldable pub notify :
    PeerCredentials → List ℕ → List (ℕ × PeerCredentials) → List (ℕ × PeerCredentials)
notify c [] told = told
notify c (w ∷ ws) told = (w, c) ∷ notify c ws told

-- The credentials are cached and told to whoever waits for them.
unfoldable pub keep : Text → PeerCredentials → List ℕ → PeerCache → PeerCache
unfolding notify
keep peer c ws p = record p {
  cache = emplace peer c p.cache;
  pending = erase peer p.pending;
  told = notify c ws p.told;
}

-- `received_credentials`, with the credentials that it has made; without a pending request it throws.
unfoldable pub received_credentials : Text → PeerCredentials → PeerCache → Option PeerCache
unfolding next_generation keep
received_credentials peer c p = elim (lookup peer p.pending) [
  | none ↦ none
  | some ws ↦ some (keep peer c ws (next_generation p))
]
