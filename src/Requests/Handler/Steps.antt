-- ===== src/Requests/Handler/Steps.antt =====
-- The steps of a request beside the events of its account: src/provider/internal/Handler.cpp over
-- src/provider/internal/OnlineAccountData.cpp.
use storage_framework.Base.{
  ℕ, ◌+◌, Bool, true, false, Option, none, some, List, [], ◌∷◌, if◌then◌else◌, is_some,
}
use storage_framework.Errors.Exceptions.{Thrown}
use storage_framework.Requests.Account.{Account, AuthReply, authenticate, on_changed}
use storage_framework.Requests.Account
use storage_framework.Requests.Handler.{
  Phase, created, awaiting_session, awaiting_peer, calling, awaiting_result, refused, replying,
  finished, escaped, Delivery, Handler, Request, begin, on_authenticated, on_peer,
  credentials_received, on_result, send_reply, handle_unauthorized,
}

-- `other_begins` is `authenticate(true, ...)` by another request on the same account.
pub data Event (M : Type 0) : Type 0 where
  starts : Event M
  session_answers : AuthReply → Event M
  account_changes : Event M
  other_begins : Bool → Event M
  peer_answers : Bool → Event M
  calls_method : Option Thrown → Event M
  method_answers : Delivery M → Event M
  runs_queued : Event M

module _ {M : Type 0} where
  with_handler : Account → Handler M → Request M
  with_handler a h = record { account = a; handler = h }

  -- Only a handler that is connected to `authenticated` hears of the session.
  hears : Account → Handler M → Phase → Request M
  unfolding with_handler
  hears a h awaiting_session = with_handler a (on_authenticated a h)
  hears a h _ = with_handler a h

  on_start : Account → Handler M → Phase → Option (Request M)
  on_start a h created = some (begin a h)
  on_start a h _ = none

  peer : Account → Handler M → Bool → Phase → Option (Request M)
  unfolding with_handler
  peer a h valid awaiting_peer = some (with_handler a (on_peer a h valid))
  peer a h valid _ = none

  call : Account → Handler M → Option Thrown → Phase → Option (Request M)
  unfolding with_handler
  call a h o calling = some (with_handler a (credentials_received h o))
  call a h o _ = none

  answer : Account → Handler M → Delivery M → Phase → Option (Request M)
  unfolding with_handler
  answer a h d awaiting_result = some (with_handler a (on_result h d))
  answer a h d _ = none

  queued : Account → Handler M → Phase → Option (Request M)
  unfolding with_handler
  queued a h (refused e) = some (handle_unauthorized a h e)
  queued a h replying = some (with_handler a (send_reply h))
  queued a h _ = none

  -- `none` for an event that cannot come in that phase.
  unfoldable pub step : Request M → Event M → Option (Request M)
  unfolding with_handler hears on_start peer call answer queued
  step r starts = on_start r.account r.handler r.handler.phase
  step r (session_answers x) =
      if is_some r.account.session
      then some (hears (Account.on_authenticated r.account x) r.handler r.handler.phase)
      else none
  step r account_changes = some (with_handler (on_changed r.account) r.handler)
  step r (other_begins b) = some (with_handler (authenticate r.account true b) r.handler)
  step r (peer_answers valid) = peer r.account r.handler valid r.handler.phase
  step r (calls_method o) = call r.account r.handler o r.handler.phase
  step r (method_answers d) = answer r.account r.handler d r.handler.phase
  step r runs_queued = queued r.account r.handler r.handler.phase

  abbrev step_from : Option (Request M) → Event M → Option (Request M)
  step_from none e = none
  step_from (some r) e = step r e

  unfoldable pub run : Option (Request M) → List (Event M) → Option (Request M)
  run r [] = r
  run r (e ∷ es) = run (step_from r e) es

-- The events that are the request's own.
unfoldable pub is_own : {M : Type 0} → Phase → Event M → Bool
is_own awaiting_session (session_answers x) = true
is_own _ (session_answers x) = false
is_own _ account_changes = false
is_own _ (other_begins b) = false
is_own _ _ = true

-- How many own events a handler has left at most, in the retry.
unfoldable pub rank : Phase → ℕ
rank created = 6
rank awaiting_session = 5
rank awaiting_peer = 4
rank calling = 3
rank awaiting_result = 2
rank (refused e) = 1
rank replying = 1
rank finished = 0
rank escaped = 0

unfoldable pub left : {M : Type 0} → Handler M → ℕ
unfolding rank
left h = (if h.retry then 0 else 5) + rank h.phase
