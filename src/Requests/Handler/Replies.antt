-- ===== src/Requests/Handler/Replies.antt =====
-- Each request is replied to once, after at most one retry: src/provider/internal/Handler.cpp.
use mathlib.Core.Option.{some-injective}
use storage_framework.Base.{
  ℕ, ◌+◌, ◌≤◌, ◌<◌, Bool, true, false, not, ◌||◌, ◌≡◌, ◌≢◌, refl, inl, inr, ◌⊎◌, subst, Option,
  none, some, List, [], ◌∷◌, if◌then◌else◌, is_some, Option-cases, arith,
}
use storage_framework.Requests.Account.{
  Account, Authentication, IsSettled, has_credentials, authenticate, serves, on_changed,
}
use storage_framework.Requests.Account
use storage_framework.Requests.Handler.{
  Phase, created, awaiting_session, awaiting_peer, calling, awaiting_result, refused, replying,
  finished, escaped, Reply, fails, Handler, Request, begin, on_authenticated, on_peer,
  credentials_received, on_result, send_reply, handle_unauthorized,
}
use storage_framework.Requests.Handler
use storage_framework.Errors.Exceptions.{foreign}
use storage_framework.Requests.Handler.Steps.{
  Event, starts, session_answers, peer_answers, calls_method, method_answers, runs_queued, step,
  run, is_own, rank, left,
}

-- Whether a session is under way that invalidates the cache.
unfoldable pub invalidates : Option Authentication → Bool
invalidates none = false
invalidates (some s) = s.invalidate_cache

-- Sessions that invalidate the cache are interactive.
unfoldable pub is_proper : Option Authentication → Bool
is_proper none = true
is_proper (some s) = not s.invalidate_cache || s.interactive

-- 1 while the method is to be called in this round.
unfoldable pub to_call : Phase → ℕ
to_call created = 1
to_call awaiting_session = 1
to_call awaiting_peer = 1
to_call calling = 1
to_call _ = 0

-- The answer of a session that failed.
abbrev no_answer : Account.AuthReply
no_answer = record {
  has_error = true;
  consumer_key = [];
  consumer_secret = [];
  token = [];
  token_secret = [];
  access_token = [];
  username = [];
  secret = [];
  data_username = [];
  data_secret = [];
}

module _ {M : Type 0} where
  pub record IsSound (r : Request M) : Type 0 where
    pub settled : IsSettled r.account
    pub proper : is_proper r.account.session ≡ true
    pub waits : r.handler.phase ≡ awaiting_session → is_some r.account.session ≡ true
    pub fresh :
        r.handler.phase ≡ awaiting_session
        → r.handler.retry ≡ true
        → invalidates r.account.session ≡ true
    pub unsent : r.handler.phase ≢ finished → (r.handler.sent ≡ []) × (r.handler.signals ≡ 0)
    pub sent_once :
        r.handler.phase ≡ finished
        → (r.handler.sent ≡ r.handler.reply ∷ []) × (r.handler.signals ≡ 1)
    pub tried : r.handler.attempts + to_call r.handler.phase ≤ (if r.handler.retry then 2 else 1)

  answers-IsSound :
      (r t : Request M) (x : Account.AuthReply)
      → IsSound r
      → step r (session_answers x) ≡ some t
      → IsSound t
  unfolding step on_authenticated to_call is_proper invalidates Account.on_authenticated
  answers-IsSound r t x i h = grind arith

  step-IsSound : (r t : Request M) (e : Event M) → IsSound r → step r e ≡ some t → IsSound t
  unfolding step begin on_authenticated on_peer credentials_received on_result send_reply
      handle_unauthorized to_call is_proper invalidates authenticate has_credentials on_changed
      serves
  step-IsSound r t (session_answers x) i h = answers-IsSound r t x i h
  step-IsSound r t e i h = grind arith

  run-none : (es : List (Event M)) → run none es ≡ none
  unfolding run
  run-none [] = refl
  run-none (e ∷ es) = run-none es

  run-IsSound :
      (r t : Request M) (es : List (Event M)) → IsSound r → run (some r) es ≡ some t → IsSound t
  unfolding run
  run-IsSound r t [] i h = subst IsSound (some-injective r t h) i
  run-IsSound r t (e ∷ es) i h = elim (Option-cases (step r e)) [
    | inl stuck ↦ cc (run-none es, stuck)
    | inr (u, next) ↦ run-IsSound u t es (step-IsSound r u e i next) (rw (← next) h)
  ]

  -- A request on an account where credentials and a session exclude one another, and a session that
  -- invalidates the cache is interactive.
  abbrev pub arrive : Account → Request M
  arrive a = record { account = a; handler = Handler.construct }

  arrive-IsSound : (a : Account) → IsSettled a → is_proper a.session ≡ true → IsSound (arrive a)
  unfolding Handler.construct to_call
  arrive-IsSound a s p = ground arith

  -- On an account where credentials and a session exclude one another and a session that invalidates
  -- the cache is interactive, every state that a request reaches is sound, whatever comes from the
  -- account, its other requests, the peer and the provider's method: one reply has been sent, and
  -- `finished` emitted once, if the request is finished, and none before; the method has been
  -- called at most once, or twice after a retry; while the request waits for a session, one is under
  -- way, and in a retry one that invalidates the cached credentials.
  pub run-arrive-IsSound :
      (a : Account) (t : Request M) (es : List (Event M))
      → IsSettled a
      → is_proper a.session ≡ true
      → run (some (arrive a)) es ≡ some t
      → IsSound t
  run-arrive-IsSound a t es s p h = run-IsSound (arrive a) t es (arrive-IsSound a s p) h

  step-left :
      (r t : Request M) (e : Event M)
      → step r e ≡ some t
      → (if is_own r.handler.phase e then 1 else 0) + left t.handler ≤ left r.handler
  unfolding step begin on_authenticated on_peer credentials_received on_result send_reply
      handle_unauthorized left rank is_own
  step-left r t e h = grind arith

  -- The own events of a run.
  unfoldable pub own_steps : Option (Request M) → List (Event M) → ℕ
  own_steps none es = 0
  own_steps (some r) [] = 0
  own_steps (some r) (e ∷ es) =
      (if is_own r.handler.phase e then 1 else 0) + own_steps (step r e) es

  run-left :
      (r t : Request M) (es : List (Event M))
      → run (some r) es ≡ some t
      → own_steps (some r) es + left t.handler ≤ left r.handler
  unfolding run own_steps
  run-left r t [] h = rw (some-injective r t h) (omega arith)
  run-left r t (e ∷ es) h = elim (Option-cases (step r e)) [
    | inl stuck ↦ cc (run-none es, stuck)
    | inr (u, next) ↦ rw next (omega (arith, run-left u t es (rw (← next) h), step-left r u e next))
  ]

  -- An event of the request's own can come.
  abbrev pub CanMove : Request M → Type 0
  CanMove r =
      (e : Event M) × ((t : Request M) × ((step r e ≡ some t) × (is_own r.handler.phase e ≡ true)))

  move :
      (r : Request M) (e : Event M)
      → is_some (step r e) ≡ true
      → is_own r.handler.phase e ≡ true
      → CanMove r
  move r e can own = elim (Option-cases (step r e)) [
    | inl stuck ↦ absurd (cc (subst (λ o. is_some o ≡ true) stuck can))
    | inr (t, next) ↦ (e, (t, (next, own)))
  ]

  goes_on :
      (r : Request M)
      → IsSound r
      → (r.handler.phase ≡ finished) ⊎ ((r.handler.phase ≡ escaped) ⊎ CanMove r)
  unfolding step is_own
  goes_on r i = by_phase r.handler.phase refl
    where
      by_phase :
          (p : Phase)
          → r.handler.phase ≡ p
          → (r.handler.phase ≡ finished) ⊎ ((r.handler.phase ≡ escaped) ⊎ CanMove r)
      by_phase created h = inr (inr (move r starts (ground arith) (ground arith)))
      by_phase awaiting_session h =
          inr (inr (move r (session_answers no_answer) (ground (arith, i.waits h)) (ground arith)))
      by_phase awaiting_peer h =
          inr (inr (move r (peer_answers true) (ground arith) (ground arith)))
      by_phase calling h = inr (inr (move r (calls_method none) (ground arith) (ground arith)))
      by_phase awaiting_result h =
          inr (inr (move r (method_answers (fails foreign)) (ground arith) (ground arith)))
      by_phase (refused e) h = inr (inr (move r runs_queued (ground arith) (ground arith)))
      by_phase replying h = inr (inr (move r runs_queued (ground arith) (ground arith)))
      by_phase finished h = inl h
      by_phase escaped h = inr (inl h)

  CanMove-left : (r : Request M) → CanMove r → 1 ≤ left r.handler
  CanMove-left r (e, (t, (next, own))) = ground (arith, step-left r t e next)

  -- A request ends: on an account where credentials and a session exclude one another and a session
  -- that invalidates the cache is interactive, in every run, whatever comes in between, a request has at
  -- most eleven events of its own; and as long as it is not finished, and no exception that is no
  -- `std::exception` has escaped, an event of its own can come, so that it never waits for what cannot
  -- come. After eleven it is finished, or such an exception has escaped.
  pub own_steps-arrive :
      (a : Account) (t : Request M) (es : List (Event M))
      → IsSettled a
      → is_proper a.session ≡ true
      → run (some (arrive a)) es ≡ some t
      → (own_steps (some (arrive a)) es ≤ 11)
        × ((t.handler.phase ≡ finished)
            ⊎ ((t.handler.phase ≡ escaped) ⊎ (CanMove t × (own_steps (some (arrive a)) es < 11))))
  unfolding Handler.construct left rank
  own_steps-arrive a t es s p h =
      let counted : own_steps (some (arrive a)) es + left t.handler ≤ 11 =
        run-left (arrive a) t es h in
      (
        omega arith,
        elim (goes_on t (run-arrive-IsSound a t es s p h)) [
          | inl f ↦ inl f
          | inr (inl e) ↦ inr (inl e)
          | inr (inr c) ↦ inr (inr (c, omega (arith, counted, CanMove-left t c)))
        ],
      )
