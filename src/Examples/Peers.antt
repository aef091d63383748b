-- ===== src/Examples/Peers.antt =====
-- Two requests for one peer before the bus daemon answers, and one after it.
use storage_framework.Base.{ℕ, ◌+◌, true, refl, ◌≡◌, Option, none, some, List, [], ◌∷◌, length}
use storage_framework.Base.Text.{Text, text, text_eq, text_lt}
use storage_framework.Base.Key.{text_key}
use storage_framework.Base.Dict.{lookup, emplace, assign, erase}
use storage_framework.Requests.Peers.{
  PeerCredentials, PeerCache, invalid, get, keep, next_generation, received_credentials,
}
use storage_framework.Requests.Peers
use storage_framework.Requests.Peers.Waiters.{IsSeparate, waiting, kept, times}
use storage_framework.Requests.Peers.Runs.{
  Event, asks, answers, step, run, promises, answered, run-construct-IsSeparate,
}

abbrev peer : Text
peer = text ":1.7"

abbrev who : PeerCredentials
who = record { valid = true; uid = 1000; pid = 42; label = text "app" }

abbrev two_asks : List Event
two_asks = asks invalid peer 1 ∷ asks invalid peer 2 ∷ []

abbrev history : List Event
history = asks invalid peer 1 ∷ asks invalid peer 2 ∷ answers peer who ∷ asks invalid peer 3 ∷ []

abbrev or_new : Option PeerCache → PeerCache
or_new none = Peers.construct
or_new (some p) = p

abbrev after : PeerCache
after = or_new (run (some Peers.construct) history)

abbrev before : PeerCache
before = or_new (run (some Peers.construct) two_asks)

run-construct-IsSeparate_example :
    IsSeparate after
    × ((n : ℕ) → kept n after.told + waiting n after.pending ≡ times n (promises history))
    × (length after.calls ≡ answered history + length after.pending)
unfolding run step get Peers.construct received_credentials lookup emplace assign erase text_eq
    text_lt next_generation keep
run-construct-IsSeparate_example = run-construct-IsSeparate after history refl

abbrev settled : PeerCache
settled = or_new (received_credentials peer who before)
