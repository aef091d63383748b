-- ===== src/Examples/Account.antt =====
-- An account whose first session is still under way.
use storage_framework.Base.{true, refl}
use storage_framework.Base.Text.{text}
use storage_framework.Requests.Account.{
  Account, method_oauth2, construct, authenticate, has_credentials, IsServed, authenticate-IsServed,
}

abbrev account : Account
account = construct method_oauth2 (text "host")

-- A provider that refuses the credentials is asked again, with the cache invalidated.
authenticate-IsServed_example : IsServed account (authenticate account true true) true true
unfolding construct has_credentials authenticate
authenticate-IsServed_example = authenticate-IsServed account true true (λ _. refl)
