-- ===== src/Base/Texts.antt =====
-- Texts: what Python's `str` methods and `shlex.split` do. Letters outside ASCII have no case here.
mod Shlex
use Prim.Native.Char.{Char, code}
use Prim.Native.String.append
use Prim.Native.String.{String, [], ◌∷◌, ◌++◌, find, len, slice}
use mathlib.Core.Path.{◌≡◌, refl, ap, ◌∙◌}
use mathlib.Core.Bool.{Bool, true, false, not, ◌&&◌, ◌||◌}
use mathlib.Core.List.{List, [] as nil, ◌∷◌ as ◌::◌}
use native.Mathlib.Omega.{arith}
use text.Mathlib.Text.{◌==◌ as str_eq}
use discovery_application.Base.Tests.{if◌then◌else◌, ltb, leb, ◌==◌}
use Prim.Native.Nat.{ℕ, zero, suc, ◌+◌, ◌-◌, ◌/◌, ◌%◌}
unfoldable pub use Shlex.*

-- `str.isspace` of one character.
abbrev pub is_space : Char → Bool
is_space c =
    let n = code c in
    leb 9 n && leb n 13
    || leb 28 n && leb n 32
    || n == 133
    || n == 160
    || n == 5760
    || leb 8192 n && leb n 8202
    || n == 8232
    || n == 8233
    || n == 8239
    || n == 8287
    || n == 12288

abbrev pub is_empty : String → Bool
is_empty [] = true
is_empty (c ∷ s) = false

unfoldable pub strip_left : String → String
strip_left [] = []
strip_left (c ∷ s) = if is_space c then strip_left s else c ∷ s

unfoldable pub strip_right : String → String
strip_right [] = []
strip_right (c ∷ s) =
    let rest = strip_right s in if is_empty rest && is_space c then [] else c ∷ rest

unfoldable pub strip : String → String
unfolding strip_left strip_right
strip s = strip_right (strip_left s)

-- The letter that stands in the second text where `c` stands in the first.
abbrev translate : String → String → Char → Char
translate [] lowers c = c
translate (u ∷ uppers) [] c = c
translate (u ∷ uppers) (l ∷ lowers) c = if code c == code u then l else translate uppers lowers c

unfoldable pub lower : String → String
lower [] = []
lower (c ∷ s) = translate "ABCDEFGHIJKLMNOPQRSTUVWXYZ" "abcdefghijklmnopqrstuvwxyz" c ∷ lower s

-- The first `n` characters: `s[:n]`.
unfoldable pub take_chars : ℕ → String → String
take_chars zero s = []
take_chars (suc n) [] = []
take_chars (suc n) (c ∷ s) = c ∷ take_chars n s

-- `str(n)`, on fuel that `n` itself bounds.
unfoldable pub digits_on : ℕ → ℕ → String
digits_on zero n = []
digits_on (suc fuel) n =
    let rest = digits_on fuel (n / 10) in
    let digit = slice "0123456789" (n % 10) (n % 10 + 1) in
    if ltb n 10 then digit else rest ++ digit

unfoldable pub decimal : ℕ → String
unfolding digits_on
decimal n = digits_on (suc n) n

-- `sep.join(parts)`.
unfoldable pub join : String → List String → String
join sep nil = []
join sep (s :: nil) = s
join sep (s :: t :: rest) = s ++ sep ++ join sep (t :: rest)

-- `t in s`.
unfoldable pub contains : String → String → Bool
contains s t = leb (find s t) (len s)

unfoldable pub ends_with : String → String → Bool
ends_with s t = leb (len t) (len s) && str_eq (slice s (len s - len t) (len s)) t

-- `s.split()`; `word` is what was read of the word that has begun.
unfoldable pub split_from : String → String → List String
split_from word [] = if is_empty word then nil else word :: nil
split_from word (c ∷ s) =
    let rest = split_from (if is_space c then [] else word ++ (c ∷ [])) s in
    if is_space c && not (is_empty word) then word :: rest else rest

unfoldable pub split : String → List String
unfolding split_from
split s = split_from [] s

-- Appending by recursion, which computes where the first text is written out.
abbrev pub prepend : String → String → String
prepend [] t = t
prepend (c ∷ s) t = c ∷ prepend s t

pub append-prepend : (s t : String) → s ++ t ≡ prepend s t
append-prepend [] t = append.nil t
append-prepend (c ∷ s) t = append.cons c s t ∙ ap (λ u. c ∷ u) (append-prepend s t)
