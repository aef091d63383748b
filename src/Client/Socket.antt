-- ===== src/Client/Socket.antt =====
-- What the client library takes from `QLocalSocket`.
use storage_framework.Base.{ℕ, ◌≡◌, List, [], ◌++◌, length}
use storage_framework.Base.Int.{ℤ, pos}

-- `write` gives the number of bytes that the socket took, or -1. `sent` is what it has taken since a
-- descriptor was set.
pub record Socket : Type 1 where
  pub State : Type 0
  pub unconnected : State
  pub set_descriptor : ℤ → State → State
  pub write : List ℕ → State → ℤ × State
  pub disconnect_from_server : State → State
  pub abort : State → State
  pub sent : State → List ℕ
  pub sent-set_descriptor : (fd : ℤ) (s : State) → sent (set_descriptor fd s) ≡ []
  pub sent-write :
      (d : List ℕ) (s : State) → (write d s).0 ≡ pos (length d) → sent (write d s).1 ≡ sent s ++ d
