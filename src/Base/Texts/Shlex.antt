-- ===== src/Base/Texts/Shlex.antt =====
-- `shlex.split` of Python's library, in its POSIX mode without comments: a scanner with four states.
use Prim.Native.Char.{Char, code}
use Prim.Native.String.{String, [], ◌∷◌, ◌++◌}
use mathlib.Core.Bool.{Bool, ◌||◌}
use mathlib.Core.Option.{Option, none, some}
use mathlib.Core.Option
use mathlib.Core.List.{List, [] as nil, ◌∷◌ as ◌::◌, ◌++◌ as ◌+++◌}
use discovery_application.Base.Tests.{if◌then◌else◌, ◌==◌}

-- Outside of quotes, inside `'…'`, inside `"…"`, after a backslash outside, after one inside `"…"`.
pub data Mode : Type 0 where
  bare single double escaped double_escaped : Mode

abbrev pub is_blank : Char → Bool
is_blank c = let n = code c in n == 32 || n == 9 || n == 13 || n == 10

abbrev pub add_to : Option String → Char → Option String
add_to none c = some (c ∷ [])
add_to (some w) c = some (w ++ (c ∷ []))

abbrev pub begun : Option String → Option String
begun none = some []
begun (some w) = some w

abbrev pub closed : Option String → List String
closed none = nil
closed (some w) = w :: nil

-- The mode, the word so far, and the words that are finished, after one more character.
unfoldable pub shlex_step : Mode → Option String → Char → Mode × Option String × List String
shlex_step bare word c =
    if is_blank c
    then (bare, none, closed word)
    else if code c == 39
    then (single, begun word, nil)
    else if code c == 34
    then (double, begun word, nil)
    else if code c == 92
    then (escaped, begun word, nil)
    else (bare, add_to word c, nil)
shlex_step single word c = if code c == 39 then (bare, word, nil) else (single, add_to word c, nil)
shlex_step double word c =
    if code c == 34
    then (bare, word, nil)
    else if code c == 92
    then (double_escaped, word, nil)
    else (double, add_to word c, nil)
shlex_step escaped word c = (bare, add_to word c, nil)
shlex_step double_escaped word c =
    if code c == 92 || code c == 34
    then (double, add_to word c, nil)
    else (double, add_to (add_to word "\\") c, nil)

-- `none` is the ValueError for a quotation that is not closed, or nothing after a backslash.
unfoldable pub shlex_from : Mode → Option String → String → Option (List String)
unfolding shlex_step
shlex_from bare word [] = some (closed word)
shlex_from single word [] = none
shlex_from double word [] = none
shlex_from escaped word [] = none
shlex_from double_escaped word [] = none
shlex_from mode word (c ∷ s) =
    let (mode', word', out) = shlex_step mode word c in
    Option.map (λ words. out +++ words) (shlex_from mode' word' s)

unfoldable pub shlex_split : String → Option (List String)
unfolding shlex_from
shlex_split s = shlex_from bare none s
