-- ===== src/Requests/Peers/Waiters.antt =====
-- Every waiter is told once, and a peer is asked for once: src/provider/internal/DBusPeerCache.cpp.
use storage_framework.Base.{
  ℕ, suc, ◌+◌, ◌≡◌, refl, ◌⊎◌, inl, inr, none, some, List, [], ◌∷◌, leb, length, Option-cases,
  if◌then◌else◌, ◌==◌, Bool-cases, arith,
}
use storage_framework.Base.Text.{Text, text_eq→eq, text_lt_irrefl, text_lt_total}
use storage_framework.Base.Key.{text_key}
use storage_framework.Base.Dict.{
  Dict, lookup-Above, Above-mono, lookup, emplace, assign, erase, IsOrdered, emplace-IsOrdered,
  assign-IsOrdered, erase-IsOrdered, length-emplace, lookup-emplace, lookup-assign, lookup-erase,
}
use storage_framework.Requests.Peers.{
  PeerCredentials, PeerCache, get, next_generation, notify, max_cache_size, keep,
}

-- How often a promise is in a list, is among those that were kept, and waits.
abbrev pub times : ℕ → List ℕ → ℕ
times n [] = 0
times n (w ∷ ws) = (if n == w then 1 else 0) + times n ws

abbrev pub kept : ℕ → List (ℕ × PeerCredentials) → ℕ
kept n [] = 0
kept n ((w, c) ∷ told) = (if n == w then 1 else 0) + kept n told

unfoldable pub waiting : ℕ → Dict Text (List ℕ) → ℕ
waiting n [] = 0
waiting n ((peer, ws) ∷ m) = times n ws + waiting n m

waiting-emplace :
    (n : ℕ) (peer : Text) (ws : List ℕ) (m : Dict Text (List ℕ))
    → lookup peer m ≡ none
    → waiting n (emplace peer ws m) ≡ times n ws + waiting n m
unfolding waiting emplace lookup
waiting-emplace n peer ws [] h = refl
waiting-emplace n peer ws ((k, vs) ∷ m) h = ground (arith, waiting-emplace n peer ws m)

waiting-assign :
    (n : ℕ) (peer : Text) (ws vs : List ℕ) (m : Dict Text (List ℕ))
    → IsOrdered m
    → lookup peer m ≡ some vs
    → waiting n (assign peer ws m) + times n vs ≡ times n ws + waiting n m
unfolding waiting assign lookup
waiting-assign n peer ws vs [] o h = cc
waiting-assign n peer ws vs ((k, us) ∷ m) o h = ground (
  arith,
  waiting-assign n peer ws vs m,
  text_eq→eq k peer,
  text_lt_irrefl peer,
  text_lt_total k peer,
  lookup-Above peer m,
  Above-mono peer k m,
)

waiting-erase :
    (n : ℕ) (peer : Text) (vs : List ℕ) (m : Dict Text (List ℕ))
    → lookup peer m ≡ some vs
    → waiting n m ≡ times n vs + waiting n (erase peer m)
unfolding waiting erase lookup
waiting-erase n peer vs [] h = cc
waiting-erase n peer vs ((k, us) ∷ m) h = ground (arith, waiting-erase n peer vs m)

kept-notify :
    (n : ℕ) (c : PeerCredentials) (ws : List ℕ) (told : List (ℕ × PeerCredentials))
    → kept n (notify c ws told) ≡ times n ws + kept n told
unfolding notify
kept-notify n c [] told = ground arith
kept-notify n c (w ∷ ws) told = ground (arith, kept-notify n c ws told)

length-assign :
    {A : Type 0} (peer : Text) (a b : A) (m : Dict Text A)
    → IsOrdered m
    → lookup peer m ≡ some b
    → length (assign peer a m) ≡ length m
unfolding assign lookup
length-assign peer a b [] o h = cc
length-assign peer a b ((k, x) ∷ m) o h = ground (
  arith,
  length-assign peer a b m,
  text_eq→eq k peer,
  text_lt_irrefl peer,
  text_lt_total k peer,
  lookup-Above peer m,
  Above-mono peer k m,
)

length-erase :
    {A : Type 0} (peer : Text) (a : A) (m : Dict Text A)
    → lookup peer m ≡ some a
    → length m ≡ suc (length (erase peer m))
unfolding erase lookup
length-erase peer a [] h = cc
length-erase peer a ((k, b) ∷ m) h = ground (arith, length-erase peer a m)

-- The maps are in order and share no peer.
pub record IsSeparate (p : PeerCache) : Type 0 where
  pub cache_ordered : IsOrdered p.cache
  pub old_ordered : IsOrdered p.old_cache
  pub pending_ordered : IsOrdered p.pending
  pub apart : (peer : Text) → (lookup peer p.cache ≡ none) ⊎ (lookup peer p.old_cache ≡ none)
  pub known :
      (peer : Text)
      → (lookup peer p.pending ≡ none)
        ⊎ ((lookup peer p.cache ≡ none) × (lookup peer p.old_cache ≡ none))

pub next_generation-IsSeparate : (p : PeerCache) → IsSeparate p → IsSeparate (next_generation p)
unfolding next_generation lookup
next_generation-IsSeparate p i = elim (Bool-cases (leb max_cache_size (length p.cache))) [
  | inl full ↦ rw full (record {
    cache_ordered = tt;
    old_ordered = i.cache_ordered;
    pending_ordered = i.pending_ordered;
    apart = λ peer. inl refl;
    known = λ peer. elim (i.known peer) [ inl n ↦ inl n | inr (c, o) ↦ inr (refl, c) ];
  })
  | inr small ↦ rw small i
]

pub keep-IsSeparate :
    (peer : Text) (c : PeerCredentials) (ws : List ℕ) (p : PeerCache)
    → IsSeparate p
    → lookup peer p.pending ≡ some ws
    → IsSeparate (keep peer c ws p)
unfolding keep
keep-IsSeparate peer c ws p i h = record {
  cache_ordered = emplace-IsOrdered peer c p.cache i.cache_ordered;
  old_ordered = i.old_ordered;
  pending_ordered = erase-IsOrdered peer p.pending i.pending_ordered;
  apart = λ k.
      ground (arith, i.apart k, i.known peer, text_eq→eq peer k, lookup-emplace k peer c p.cache);
  known = λ k. ground (
    arith,
    i.known k,
    i.known peer,
    text_eq→eq peer k,
    lookup-emplace k peer c p.cache,
    lookup-erase k peer p.pending i.pending_ordered,
  );
}

pub get-IsSeparate :
    (stale : PeerCredentials) (peer : Text) (w : ℕ) (p : PeerCache)
    → IsSeparate p
    → IsSeparate (get stale peer w p)
unfolding get
get-IsSeparate stale peer w p i = elim (Option-cases (lookup peer p.cache)) [
  | inr (c, held) ↦ rw held (record {
    cache_ordered = i.cache_ordered;
    old_ordered = i.old_ordered;
    pending_ordered = i.pending_ordered;
    apart = i.apart;
    known = i.known;
  })
  | inl cold ↦ elim (Option-cases (lookup peer p.old_cache)) [
    | inr (c, old) ↦
        rw (cold, old)
          (record {
            cache_ordered = emplace-IsOrdered peer c p.cache i.cache_ordered;
            old_ordered = erase-IsOrdered peer p.old_cache i.old_ordered;
            pending_ordered = i.pending_ordered;
            apart = λ k. ground (
              arith,
              i.apart k,
              text_eq→eq peer k,
              lookup-emplace k peer c p.cache,
              lookup-erase k peer p.old_cache i.old_ordered,
            );
            known = λ k. ground (
              arith,
              i.known k,
              i.known peer,
              text_eq→eq peer k,
              lookup-emplace k peer c p.cache,
              lookup-erase k peer p.old_cache i.old_ordered,
            );
          })
    | inl older ↦ elim (Option-cases (lookup peer p.pending)) [
      | inr (ws, waits) ↦
          rw (cold, older, waits)
            (record {
              cache_ordered = i.cache_ordered;
              old_ordered = i.old_ordered;
              pending_ordered = assign-IsOrdered peer (w ∷ ws) p.pending i.pending_ordered;
              apart = i.apart;
              known = λ k.
                  ground
                    (arith, i.known k, text_eq→eq peer k, lookup-assign k peer (w ∷ ws) p.pending);
            })
      | inl new ↦
          rw (cold, older, new)
            (record {
              cache_ordered = i.cache_ordered;
              old_ordered = i.old_ordered;
              pending_ordered = emplace-IsOrdered peer (w ∷ []) p.pending i.pending_ordered;
              apart = i.apart;
              known = λ k.
                  ground
                    (arith, i.known k, text_eq→eq peer k, lookup-emplace k peer (w ∷ []) p.pending);
            })
    ]
  ]
]

-- A request: its promise waits or is kept, and the bus daemon is asked if a peer comes to the pending.
pub get-accounts :
    (stale : PeerCredentials) (peer : Text) (w n : ℕ) (p : PeerCache)
    → IsSeparate p
    → let q = get stale peer w p in
      (kept n q.told + waiting n q.pending
        ≡ times n (w ∷ []) + (kept n p.told + waiting n p.pending))
      × (length q.calls + length p.pending ≡ length p.calls + length q.pending)
unfolding get
get-accounts stale peer w n p i = elim (Option-cases (lookup peer p.cache)) [
  | inr (c, held) ↦ rw held (omega arith, refl)
  | inl cold ↦ elim (Option-cases (lookup peer p.old_cache)) [
    | inr (c, old) ↦ rw (cold, old) (omega arith, refl)
    | inl older ↦ elim (Option-cases (lookup peer p.pending)) [
      | inr (ws, waits) ↦
          rw (cold, older, waits)
            (
              omega (arith, waiting-assign n peer (w ∷ ws) ws p.pending i.pending_ordered waits),
              omega (arith, length-assign peer (w ∷ ws) ws p.pending i.pending_ordered waits),
            )
      | inl new ↦
          rw (cold, older, new)
            (
              omega (arith, waiting-emplace n peer (w ∷ []) p.pending new),
              omega (arith, length-emplace peer (w ∷ []) p.pending new),
            )
    ]
  ]
]

-- An answer: the promises that waited for it are kept, and its peer is pending no more.
pub keep-accounts :
    (n : ℕ) (peer : Text) (c : PeerCredentials) (ws : List ℕ) (p : PeerCache)
    → lookup peer p.pending ≡ some ws
    → let q = keep peer c ws p in
      (kept n q.told + waiting n q.pending ≡ kept n p.told + waiting n p.pending)
      × (q.calls ≡ p.calls)
      × (length p.pending ≡ suc (length q.pending))
unfolding keep
keep-accounts n peer c ws p h = (
  omega (arith, kept-notify n c ws p.told, waiting-erase n peer ws p.pending h),
  refl,
  length-erase peer ws p.pending h,
)
