-- ===== src/Requests/Peers/Runs.antt =====
-- The peer cache over every order of requests and answers: src/provider/internal/DBusPeerCache.cpp.
use mathlib.Core.Option.{some-injective}
use storage_framework.Base.{
  ℕ, ◌+◌, ◌≡◌, refl, sym, ◌∙◌, ap, inl, inr, subst, Option, none, some, List, [], ◌∷◌, length,
  Option-cases, arith,
}
use storage_framework.Base.Text.{Text}
use storage_framework.Base.Key.{text_key}
use storage_framework.Base.Dict.{lookup}
use storage_framework.Requests.Peers.{
  PeerCredentials, PeerCache, get, keep, next_generation, received_credentials, construct,
}
use storage_framework.Requests.Peers.Waiters.{
  IsSeparate, waiting, times, kept, get-IsSeparate, keep-IsSeparate, next_generation-IsSeparate,
  get-accounts, keep-accounts,
}

-- A request, with its waiter and what a read of an erased entry would give; and the bus daemon's answer
-- for a peer, as credentials.
pub data Event : Type 0 where
  asks : PeerCredentials → Text → ℕ → Event
  answers : Text → PeerCredentials → Event

unfoldable pub step : PeerCache → Event → Option PeerCache
step p (asks stale peer w) = some (get stale peer w p)
step p (answers peer c) = received_credentials peer c p

unfoldable pub run : Option PeerCache → List Event → Option PeerCache
run p [] = p
run none (e ∷ es) = run none es
run (some p) (e ∷ es) = run (step p e) es

-- The promises of the requests of a run, and the number of its answers.
unfoldable pub promises : List Event → List ℕ
promises [] = []
promises (asks stale peer w ∷ es) = w ∷ promises es
promises (answers peer c ∷ es) = promises es

abbrev is_answer : Event → ℕ
is_answer (asks stale peer w) = 0
is_answer (answers peer c) = 1

unfoldable pub answered : List Event → ℕ
answered [] = 0
answered (e ∷ es) = is_answer e + answered es

next_generation-pending : (p : PeerCache) → (next_generation p).pending ≡ p.pending
unfolding next_generation
next_generation-pending p = ground arith

next_generation-told : (p : PeerCache) → (next_generation p).told ≡ p.told
unfolding next_generation
next_generation-told p = ground arith

next_generation-calls : (p : PeerCache) → (next_generation p).calls ≡ p.calls
unfolding next_generation
next_generation-calls p = ground arith

-- What a run keeps: each promise waits or is kept as often as it was asked for, and the bus daemon was
-- asked for the peers that were answered and those that are pending.
abbrev Keeps : PeerCache → PeerCache → List Event → Type 0
Keeps p q es =
    IsSeparate q
    × ((n : ℕ)
        → kept n q.told + waiting n q.pending
          ≡ times n (promises es) + (kept n p.told + waiting n p.pending))
    × (length q.calls + length p.pending ≡ answered es + (length p.calls + length q.pending))

keep-Keeps :
    (peer : Text) (c : PeerCredentials) (ws : List ℕ) (p : PeerCache)
    → IsSeparate p
    → lookup peer p.pending ≡ some ws
    → Keeps p (keep peer c ws (next_generation p)) (answers peer c ∷ [])
unfolding promises answered
keep-Keeps peer c ws p i h =
    let held : lookup peer (next_generation p).pending ≡ some ws =
      rw (next_generation-pending p) h in
    (
      keep-IsSeparate peer c ws (next_generation p) (next_generation-IsSeparate p i) held,
      λ n. omega (
        arith,
        (keep-accounts n peer c ws (next_generation p) held).0,
        ap (waiting n) (next_generation-pending p),
        ap (kept n) (next_generation-told p),
      ),
      (let (kept_waits, same, fewer) = keep-accounts 0 peer c ws (next_generation p) held in
          omega (
            arith,
            ap length same,
            fewer,
            ap length (next_generation-calls p),
            ap length (next_generation-pending p),
          )),
    )

received_credentials-keep :
    (peer : Text) (c : PeerCredentials) (ws : List ℕ) (p : PeerCache)
    → lookup peer p.pending ≡ some ws
    → received_credentials peer c p ≡ some (keep peer c ws (next_generation p))
unfolding received_credentials
received_credentials-keep peer c ws p h = rw (received_credentials, h) refl

received_credentials-none :
    (peer : Text) (c : PeerCredentials) (p : PeerCache)
    → lookup peer p.pending ≡ none
    → received_credentials peer c p ≡ none
unfolding received_credentials
received_credentials-none peer c p h = rw (received_credentials, h) refl

step-Keeps : (p q : PeerCache) (e : Event) → IsSeparate p → step p e ≡ some q → Keeps p q (e ∷ [])
unfolding step promises answered
step-Keeps p q (asks stale peer w) i h =
    subst (λ x. Keeps p x (asks stale peer w ∷ [])) (some-injective _ _ h)
      (
        get-IsSeparate stale peer w p i,
        λ n. (get-accounts stale peer w n p i).0,
        omega (arith, (get-accounts stale peer w 0 p i).1),
      )
step-Keeps p q (answers peer c) i h = elim (Option-cases (lookup peer p.pending)) [
  | inl absent ↦ absurd (cc (received_credentials-none peer c p absent))
  | inr (ws, held) ↦
      subst (λ x. Keeps p x (answers peer c ∷ []))
        (some-injective _ _ (sym (received_credentials-keep peer c ws p held) ∙ h))
        (keep-Keeps peer c ws p i held)
]

times_step :
    (n : ℕ) (e : Event) (es : List Event)
    → times n (promises (e ∷ es)) ≡ times n (promises (e ∷ [])) + times n (promises es)
unfolding promises
times_step n (asks stale peer w) es = omega arith
times_step n (answers peer c) es = omega arith

answered_step : (e : Event) (es : List Event) → answered (e ∷ es) ≡ answered (e ∷ []) + answered es
unfolding answered
answered_step e es = omega arith

run-none : (es : List Event) → run none es ≡ none
unfolding run
run-none [] = refl
run-none (e ∷ es) = run-none es

run-Keeps :
    (p q : PeerCache) (es : List Event) → IsSeparate p → run (some p) es ≡ some q → Keeps p q es
unfolding run promises answered
run-Keeps p q [] i h =
    subst (λ x. Keeps p x []) (some-injective p q h) (i, λ n. omega arith, omega arith)
run-Keeps p q (e ∷ es) i h = elim (Option-cases (step p e)) [
  | inl stuck ↦ cc (run-none es, stuck)
  | inr (u, next) ↦
      let (k, n, a) = step-Keeps p u e i next in
      let (l, m, b) = run-Keeps u q es k (rw (← next) h) in
      (l, λ x. omega (arith, n x, m x, times_step x e es), omega (arith, a, b, answered_step e es))
]

construct-IsSeparate : IsSeparate construct
unfolding construct lookup
construct-IsSeparate = record {
  cache_ordered = tt;
  old_ordered = tt;
  pending_ordered = tt;
  apart = λ peer. inl refl;
  known = λ peer. inl refl;
}

-- In every state that a new cache reaches by requests and answers in any order: no peer is in two of
-- the two generations and the pending requests; each promise was kept or waits exactly as often as it
-- was asked for, so that none is lost and none is kept twice; and the bus daemon was asked exactly as
-- often as it has answered and as there are pending peers.
pub run-construct-IsSeparate :
    (t : PeerCache) (es : List Event)
    → run (some construct) es ≡ some t
    → IsSeparate t
      × ((n : ℕ) → kept n t.told + waiting n t.pending ≡ times n (promises es))
      × (length t.calls ≡ answered es + length t.pending)
unfolding construct waiting
run-construct-IsSeparate t es h =
    let (i, n, a) = run-Keeps construct t es construct-IsSeparate h in
    (i, λ x. omega (arith, n x), omega (arith, a))
