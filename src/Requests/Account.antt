-- ===== src/Requests/Account.antt =====
-- src/provider/internal/OnlineAccountData.cpp: the credentials of an account, and the one
-- authentication session that may be under way.
use storage_framework.Base.{
  ℕ, suc, Bool, true, false, not, ◌&&◌, ◌≡◌, refl, sym, subst, ◌⊎◌, inl, inr, Bool-cases, Option,
  none, some, List, [], ◌∷◌, if◌then◌else◌, is_empty, is_some, arith,
}
use storage_framework.Base.Text.{Text}

pub data Credentials : Type 0 where
  blank : Credentials
  oauth1 : Text → Text → Text → Text → Credentials
  oauth2 : Text → Credentials
  password : Text → Text → Text → Credentials

pub data AuthMethod : Type 0 where
  method_oauth1 method_oauth2 method_password method_unknown : AuthMethod

-- What the session's call has answered; each method reads its own fields. `data_username` and
-- `data_secret` are the entries "UserName" and "Secret" of the reply's data.
pub record AuthReply : Type 0 where
  pub has_error : Bool
  pub consumer_key : Text
  pub consumer_secret : Text
  pub token : Text
  pub token_secret : Text
  pub access_token : Text
  pub username : Text
  pub secret : Text
  pub data_username : Text
  pub data_secret : Text

-- A session: whether it is interactive, and whether it invalidates the cached reply.
pub record Authentication : Type 0 where
  pub interactive : Bool
  pub invalidate_cache : Bool

-- `session` is `auth_watcher_` with the two flags, `calls` the calls of the account service so far and
-- `signals` the emissions of `authenticated`.
pub record Account : Type 0 where
  pub auth_method : AuthMethod
  pub host : Text
  pub credentials : Credentials
  pub session : Option Authentication
  pub calls : List Authentication
  pub signals : ℕ

-- Whether the session that is under way will do.
unfoldable pub serves : Option Authentication → Bool → Bool → Bool
serves none interactive invalidate = false
serves (some s) interactive true = s.invalidate_cache
serves (some s) true false = s.interactive
serves (some s) false false = true

unfoldable pub authenticate : Account → Bool → Bool → Account
unfolding serves
authenticate a interactive invalidate =
    let s : Authentication = record { interactive = interactive; invalidate_cache = invalidate } in
    if serves a.session interactive invalidate
    then a
    else (record a { credentials = blank; session = some s; calls = s ∷ a.calls })

unfoldable pub is_blank : Credentials → Bool
is_blank blank = true
is_blank _ = false

unfoldable pub has_credentials : Account → Bool
unfolding is_blank
has_credentials a = not (is_blank a.credentials)

-- `credentials_` after the session's answer.
unfoldable pub received_credentials : AuthMethod → Text → AuthReply → Credentials
received_credentials method_oauth1 host r =
    if r.has_error then blank else oauth1 r.consumer_key r.consumer_secret r.token r.token_secret
received_credentials method_oauth2 host r = if r.has_error then blank else oauth2 r.access_token
received_credentials method_password host r =
    if r.has_error
    then blank
    else if is_empty r.username && is_empty r.secret
    then password r.data_username r.data_secret host
    else password r.username r.secret host
received_credentials method_unknown host r = blank

unfoldable pub on_authenticated : Account → AuthReply → Account
unfolding received_credentials
on_authenticated a r = record a {
  credentials = received_credentials a.auth_method a.host r;
  session = none;
  signals = suc a.signals;
}

unfoldable pub on_changed : Account → Account
on_changed a = elim a.session [ some s ↦ a | none ↦ record a { credentials = blank } ]

-- The constructor.
unfoldable pub construct : AuthMethod → Text → Account
unfolding authenticate
construct method host =
    authenticate
      (record {
        auth_method = method;
        host = host;
        credentials = blank;
        session = none;
        calls = [];
        signals = 0;
      })
      false false

-- Credentials and a session exclude one another.
abbrev pub IsSettled : Account → Type 0
IsSettled a = is_some a.session ≡ true → has_credentials a ≡ false

-- A session that will do is under way.
serves-session :
    (o : Option Authentication) (interactive invalidate : Bool)
    → serves o interactive invalidate ≡ true
    → (s : Authentication) × (o ≡ some s)
      × (invalidate ≡ true → s.invalidate_cache ≡ true)
      × (invalidate ≡ false → interactive ≡ true → s.interactive ≡ true)
unfolding serves
serves-session none interactive invalidate h = ground arith
serves-session (some s) interactive true h = (s, refl, λ _. h, λ v _. ground arith)
serves-session (some s) true false h = (s, refl, λ v. ground arith, λ _ _. h)
serves-session (some s) false false h = (s, refl, λ v. ground arith, λ _ v. ground arith)

authenticate_kept :
    (a : Account) (interactive invalidate : Bool)
    → serves a.session interactive invalidate ≡ true
    → authenticate a interactive invalidate ≡ a
unfolding authenticate
authenticate_kept a interactive invalidate h = ground arith

authenticate_anew :
    (a : Account) (interactive invalidate : Bool)
    → serves a.session interactive invalidate ≡ false
    → let s : Authentication = record {
      interactive = interactive;
      invalidate_cache = invalidate;
    } in
      authenticate a interactive invalidate
      ≡ (record a { credentials = blank; session = some s; calls = s ∷ a.calls })
unfolding authenticate
authenticate_anew a interactive invalidate h = ground arith

-- What `authenticate` leaves: a session that does what was asked, with no credentials beside it. It
-- was under way before and all is as it was, or it is new and is the only call made.
pub record IsServed (a b : Account) (interactive invalidate : Bool) : Type 0 where
  pub asked : Authentication
  pub under_way : b.session ≡ some asked
  pub invalidates : invalidate ≡ true → asked.invalidate_cache ≡ true
  pub interacts : invalidate ≡ false → interactive ≡ true → asked.interactive ≡ true
  pub settled : IsSettled b
  pub called : (b ≡ a) ⊎ (b.calls ≡ asked ∷ a.calls)

-- If credentials and a session exclude one another before `authenticate`, they do after it, and then
-- a session is under way that does what was asked: it invalidates the cache if that was asked, and
-- else is interactive if that was. Either it was under way before and nothing has changed, or it was
-- begun by the one call that was made.
pub authenticate-IsServed :
    (a : Account) (interactive invalidate : Bool)
    → IsSettled a
    → IsServed a (authenticate a interactive invalidate) interactive invalidate
unfolding has_credentials
authenticate-IsServed a interactive invalidate h =
    elim (Bool-cases (serves a.session interactive invalidate)) [
      | inl e ↦
          subst (λ b. IsServed a b interactive invalidate)
            (sym (authenticate_kept a interactive invalidate e))
            (let (s, u, v, w) = serves-session a.session interactive invalidate e in
              record {
                asked = s;
                under_way = u;
                invalidates = v;
                interacts = w;
                settled = h;
                called = inl refl;
              })
      | inr e ↦
          subst (λ b. IsServed a b interactive invalidate)
            (sym (authenticate_anew a interactive invalidate e))
            (record {
              asked = record { interactive = interactive; invalidate_cache = invalidate };
              under_way = refl;
              invalidates = λ v. v;
              interacts = λ _ v. v;
              settled = λ _. refl;
              called = inr refl;
            })
    ]
