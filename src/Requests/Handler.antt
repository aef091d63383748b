-- ===== src/Requests/Handler.antt =====
-- src/provider/internal/Handler.cpp: one D-Bus request, from its arrival to its reply.
pub mod Steps
pub mod Replies
use storage_framework.Base.{
  ℕ, suc, Bool, true, false, not, ◌&&◌, Option, none, some, List, [], ◌∷◌, if◌then◌else◌,
}
use storage_framework.Base.Text.{Text, text}
use storage_framework.Errors.Exceptions.{
  StorageException, unauthorized, Thrown, storage, std_exception, foreign,
}
use storage_framework.Errors.Marshal.{ErrorReply, marshal_exception}
use storage_framework.Requests.Account.{Account, Credentials, has_credentials, authenticate}

-- What the handler waits for: a session of the account, the peer's credentials, the queued call of
-- the provider's method, its future, or a queued call of `handle_unauthorized` or `send_reply`. An
-- exception that is no `std::exception` is caught nowhere (`escaped`).
pub data Phase : Type 0 where
  created awaiting_session awaiting_peer calling awaiting_result : Phase
  refused : StorageException → Phase
  replying finished escaped : Phase

pub data Reply (M : Type 0) : Type 0 where
  no_reply : Reply M
  result : M → Reply M
  error_reply : ErrorReply → Reply M

-- What the future of the provider's method delivers.
pub data Delivery (M : Type 0) : Type 0 where
  delivers : M → Delivery M
  fails : Thrown → Delivery M

-- `attempts` are the calls of the provider's method, `sent` the messages sent and `signals` the
-- emissions of `finished`.
pub record Handler (M : Type 0) : Type 0 where
  pub retry : Bool
  pub phase : Phase
  pub reply : Reply M
  pub context : Option Credentials
  pub attempts : ℕ
  pub sent : List (Reply M)
  pub signals : ℕ

pub record Request (M : Type 0) : Type 0 where
  pub account : Account
  pub handler : Handler M

module _ {M : Type 0} where
  unfoldable pub fail_with : Handler M → Thrown → Handler M
  fail_with h e = record h { reply = error_reply (marshal_exception e); phase = replying }

  -- `on_authenticated`, up to the query for the peer.
  unfoldable pub on_authenticated : Account → Handler M → Handler M
  unfolding fail_with
  on_authenticated a h =
      if has_credentials a
      then (record h { phase = awaiting_peer })
      else fail_with h
          (storage (unauthorized (text "Handler::begin(): could not retrieve account credentials")))

  unfoldable pub begin : Account → Handler M → Request M
  unfolding on_authenticated
  begin a h =
      if has_credentials a && not h.retry
      then (record { account = a; handler = on_authenticated a h })
      else (record {
        account = authenticate a true h.retry;
        handler = record h { phase = awaiting_session };
      })

  -- The continuation of `on_authenticated`.
  unfoldable pub on_peer : Account → Handler M → Bool → Handler M
  unfolding fail_with
  on_peer a h valid =
      if valid
      then (record h { context = some a.credentials; phase = calling })
      else fail_with h (
          storage
            (unauthorized (text "Handler::begin(): could not retrieve D-Bus peer credentials")))

  fail_if_known : Handler M → Thrown → Handler M
  unfolding fail_with
  fail_if_known h (storage e) = fail_with h (storage e)
  fail_if_known h (std_exception w) = fail_with h (std_exception w)
  fail_if_known h foreign = record h { phase = escaped }

  -- `credentials_received`: the method returns a future, or throws at once.
  unfoldable pub credentials_received : Handler M → Option Thrown → Handler M
  unfolding fail_if_known
  credentials_received h none = record h { attempts = suc h.attempts; phase = awaiting_result }
  credentials_received h (some e) = fail_if_known (record h { attempts = suc h.attempts }) e

  -- The continuation of `credentials_received`.
  unfoldable pub on_result : Handler M → Delivery M → Handler M
  unfolding fail_if_known
  on_result h (delivers m) = record h { reply = result m; phase = replying }
  on_result h (fails (storage (unauthorized m))) = record h { phase = refused (unauthorized m) }
  on_result h (fails e) = fail_if_known h e

  unfoldable pub send_reply : Handler M → Handler M
  send_reply h = record h { sent = h.reply ∷ h.sent; signals = suc h.signals; phase = finished }

  unfoldable pub handle_unauthorized : Account → Handler M → StorageException → Request M
  unfolding send_reply begin
  handle_unauthorized a h e =
      if h.retry
      then (record {
        account = a;
        handler = send_reply (record h { reply = error_reply (marshal_exception (storage e)) });
      })
      else begin a (record h { retry = true })

unfoldable pub construct : {M : Type 0} → Handler M
construct = record {
  retry = false;
  phase = created;
  reply = no_reply;
  context = none;
  attempts = 0;
  sent = [];
  signals = 0;
}
