-- ===== src/Tests/Cipher.antt =====
-- A plain cipher for the tests: it writes every character twice and ends a text with two
-- different characters.
use Prim.Native.Char.{Char, code}
use Prim.Native.String.{[] as nil, ◌∷◌ as ◌::◌}
use discovery_application.Base.{
  ℕ, true, ◌≡◌, refl, arith, String, Option, none, some, on_some, ◌==◌, if◌then◌else◌,
}
use discovery_application.Sandbox.Session.{Cipher, IsCipher}

abbrev mark_a : Char
mark_a = "a"

abbrev mark_b : Char
mark_b = "b"

abbrev spell : String → String → String
spell nil rest = mark_a :: mark_b :: rest
spell (c :: s) rest = c :: c :: spell s rest

abbrev scan : String → Option (String × String)
scan nil = none
scan (c :: nil) = none
scan (c :: d :: rest) =
    let after = scan rest in
    if code c == code d
    then on_some after (λ (s, left). some (c :: s, left)) none
    else some (nil, rest)

same : (n : ℕ) → (n == n) ≡ true
same n = ground arith

scan-spell : (s rest : String) → scan (spell s rest) ≡ some (s, rest)
scan-spell nil rest = refl
scan-spell (c :: s) rest = rw (same (code c), scan-spell s rest)

abbrev spell_option : Option String → String → String
spell_option none rest = mark_a :: rest
spell_option (some s) rest = mark_b :: spell s rest

abbrev scan_option : String → Option (Option String × String)
scan_option nil = none
scan_option (c :: rest) =
    if code c == 97
    then some (none, rest)
    else on_some (scan rest) (λ (s, left). some (some s, left)) none

scan_option-spell_option :
    (o : Option String) (rest : String) → scan_option (spell_option o rest) ≡ some (o, rest)
scan_option-spell_option none rest = refl
scan_option-spell_option (some s) rest = rw (scan-spell s rest)

abbrev pub plain : Cipher
plain = record {
  encrypt = λ p. spell p.item_id (
      spell p.session_id (
        spell_option p.oauth_state (
          spell_option p.access_token (
            spell_option p.refresh_token
              (spell_option p.token_type (spell_option p.auth_method ""))))));
  decrypt = λ text.
      on_some (scan text)
        (λ (item_id, t).
          on_some (scan t)
            (λ (session_id, t).
              on_some (scan_option t)
                (λ (oauth_state, t).
                  on_some (scan_option t)
                    (λ (access_token, t).
                      on_some (scan_option t)
                        (λ (refresh_token, t).
                          on_some (scan_option t)
                            (λ (token_type, t).
                              on_some (scan_option t)
                                (λ (auth_method, t). some (record {
                                  item_id = item_id;
                                  session_id = session_id;
                                  oauth_state = oauth_state;
                                  access_token = access_token;
                                  refresh_token = refresh_token;
                                  token_type = token_type;
                                  auth_method = auth_method;
                                }))
                                none)
                            none)
                        none)
                    none)
                none)
            none)
        none;
}

pub plain-IsCipher : IsCipher plain
plain-IsCipher p = rw (
  scan-spell p.item_id _,
  scan-spell p.session_id _,
  scan_option-spell_option p.oauth_state _,
  scan_option-spell_option p.access_token _,
  scan_option-spell_option p.refresh_token _,
  scan_option-spell_option p.token_type _,
  scan_option-spell_option p.auth_method _,
)
