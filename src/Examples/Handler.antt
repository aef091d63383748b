-- ===== src/Examples/Handler.antt =====
-- A request on an account whose first session is under way; the method's replies are numbers.
use storage_framework.Base.{
  ℕ, ◌≤◌, ◌<◌, ◌≡◌, ◌⊎◌, refl, true, false, none, some, Option, List, [], ◌∷◌,
}
use storage_framework.Base.Text.{text}
use storage_framework.Errors.Exceptions.{unauthorized, storage}
use storage_framework.Requests.Account.{
  Account, AuthReply, method_oauth2, has_credentials, authenticate,
}
use storage_framework.Requests.Account
use storage_framework.Requests.Handler.{
  Request, finished, escaped, delivers, fails, begin, on_authenticated, on_peer,
  credentials_received, on_result, handle_unauthorized, send_reply,
}
use storage_framework.Requests.Handler
use storage_framework.Requests.Handler.Steps.{
  Event, starts, session_answers, peer_answers, calls_method, method_answers, runs_queued, step,
  run,
}
use storage_framework.Requests.Handler.Replies.{
  IsSound, CanMove, arrive, own_steps, run-arrive-IsSound, own_steps-arrive, is_proper,
}

abbrev account : Account
account = Account.construct method_oauth2 (text "host")

abbrev granted : AuthReply
granted = record {
  has_error = false;
  consumer_key = [];
  consumer_secret = [];
  token = [];
  token_secret = [];
  access_token = text "t";
  username = [];
  secret = [];
  data_username = [];
  data_secret = [];
}

-- The method refuses the first credentials, and replies 42 to the second.
abbrev history : List (Event ℕ)
history =
    starts
    ∷ session_answers granted
    ∷ peer_answers true
    ∷ calls_method none
    ∷ method_answers (fails (storage (unauthorized (text "expired"))))
    ∷ runs_queued
    ∷ session_answers granted
    ∷ peer_answers true
    ∷ calls_method none
    ∷ method_answers (delivers 42)
    ∷ runs_queued
    ∷ []

abbrev or_arrive : Option (Request ℕ) → Request ℕ
or_arrive none = arrive account
or_arrive (some r) = r

abbrev served : Request ℕ
served = or_arrive (run (some (arrive account)) history)

run-arrive-IsSound_example : IsSound served
unfolding Account.construct authenticate has_credentials Account.on_authenticated
    Account.received_credentials Account.is_blank Account.serves Handler.construct is_proper run
    step begin on_authenticated on_peer credentials_received on_result handle_unauthorized
    send_reply
run-arrive-IsSound_example = run-arrive-IsSound account served history (λ _. refl) refl refl

own_steps-arrive_example :
    (own_steps (some (arrive account)) history ≤ 11)
    × ((served.handler.phase ≡ finished)
        ⊎ ((served.handler.phase ≡ escaped)
            ⊎ (CanMove served × (own_steps (some (arrive account)) history < 11))))
unfolding Account.construct authenticate has_credentials Account.on_authenticated
    Account.received_credentials Account.is_blank Account.serves Handler.construct is_proper run
    step begin on_authenticated on_peer credentials_received on_result handle_unauthorized
    send_reply
own_steps-arrive_example = own_steps-arrive account served history (λ _. refl) refl refl
