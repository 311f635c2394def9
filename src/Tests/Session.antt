-- ===== src/Tests/Session.antt =====
-- The session store over a plain cipher.
use discovery_application.Base.{
  ◌≡◌, ◌≢◌, refl, arith, String, List, some, none, [], ◌∷◌, lookup, strip, str_eq_iff, All,
}
use discovery_application.Sandbox.Session.{
  SessionStore, create_session, to_token_payload, store, get_session, store_token,
}
use discovery_application.Sandbox.Session.Lifetime
use discovery_application.Sandbox.Session.Lifetime.{kept_session}
use discovery_application.Sandbox.Session.Isolation
use discovery_application.Sandbox.Session.Isolation.{
  SessionOp, create, keep_token, revoke, sweep, steps, Spares,
}
use discovery_application.Sandbox.Session.Effects.{IsFiled}
use discovery_application.Tests.Cipher.{plain, plain-IsCipher}

abbrev fresh : SessionStore
fresh = record { entries = []; last_cleanup = 0 }

calls : Unit {0}
unfolding create_session store to_token_payload
calls = tt

stripped : strip "  key  " ≡ "key"
unfolding strip
stripped = refl

-- The token was to live for ten seconds, and is read after a million.
get-store-create_example :
    (get_session plain "s" 1_000_000 1_000_000
      (store_token plain "s" " key " "Bearer" none "api_key"
        (some 10)
        5
        5
        (create_session plain "item" "s" 0 fresh).1).1).0
    ≡ some (kept_session "item" "s" " key " "Bearer" none "api_key" 1_000_000)
get-store-create_example =
    Lifetime.get-store-create plain plain-IsCipher fresh "item" "s" " key " "Bearer" none "api_key"
      (some 10) 0 5 5 1_000_000 1_000_000 (omega arith)

abbrev one_session : SessionStore
one_session = (create_session plain "item" "s" 0 fresh).1

fresh-IsFiled : IsFiled plain fresh
fresh-IsFiled id raw found = cc

s_not_r : ◌≢◌ {A = String} "s" "r"
s_not_r = ground (arith, str_eq_iff "s" "r")

abbrev made_calls : List SessionOp
made_calls =
    create "item" "r" 1
    ∷ keep_token "r" "t" "Bearer" none "oauth2" none 2 3
    ∷ sweep (λ id. (90, 91)) 90
    ∷ revoke "r"
    ∷ []

steps-IsFiled_example :
    Isolation.IsSound plain plain-IsCipher (steps plain made_calls fresh)
    × ((id : String)
        → All (Spares id) made_calls
        → lookup id (steps plain made_calls fresh).entries ≡ lookup id fresh.entries)
steps-IsFiled_example =
    Isolation.steps-IsFiled plain plain-IsCipher made_calls fresh (fresh-IsFiled, tt)
