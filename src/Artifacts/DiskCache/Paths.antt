-- ===== src/Artifacts/DiskCache/Paths.antt =====
-- Paths that the cache generates are accepted by it.
use Prim.Native.Char.{Char}
use Prim.Native.String.{[] as nil, ◌∷◌ as ◌::◌, ◌++◌ as ◌+++◌}
use Prim.Native.String.append
use discovery_application.Base.{
  ◌≡◌, refl, arith, String, Bool, true, false, not, ◌&&◌, List, [], ◌∷◌, All, keep, any, str_eq,
  str_eq_iff, inl, inr, Bool-cases, is_empty, append-prepend, subst,
}
use discovery_application.Artifacts.DiskCache.{
  is_slash, is_dot, push, split_slash, path_parts, validate_relative_path, is_absolute, drop_dots,
  strip_slashes, generate_source_file_cache_path,
}

abbrev begins_with_dot : String → Bool
begins_with_dot nil = false
begins_with_dot (c :: s) = is_dot c

-- No two dots stand next to each other.
abbrev pub HasNoDots : String → Type 0
HasNoDots nil = Unit {0}
HasNoDots (c :: s) = (is_dot c ≡ true → begins_with_dot s ≡ false) × HasNoDots s

dot_then : (c : Char) (s : String) → is_dot c ≡ false → HasNoDots s → HasNoDots ("." +++ (c :: s))
dot_then c s h k = rw (append-prepend "." (c :: s)) ((λ _. h), ((λ e. cc (e, h)), k))

-- Both ways of a test on a character.
either :
    (b : Bool) (x y : String)
    → (b ≡ true → HasNoDots x)
    → (b ≡ false → HasNoDots y)
    → HasNoDots (elim b [ true ↦ x | false ↦ y ])
either true x y h k = h refl
either false x y h k = k refl

drop_dots-HasNoDots : (b : Bool) (s : String) → HasNoDots (drop_dots b s)
unfolding drop_dots
drop_dots-HasNoDots false nil = tt
drop_dots-HasNoDots true nil = ((λ _. refl), tt)
drop_dots-HasNoDots false (c :: s) =
    either (is_dot c) _ _ (λ _. drop_dots-HasNoDots true s)
      (λ e. ((λ d. cc (d, e)), drop_dots-HasNoDots false s))
drop_dots-HasNoDots true (c :: s) =
    either (is_dot c) _ _ (λ _. drop_dots-HasNoDots false s)
      (λ e. dot_then c (drop_dots false s) e (drop_dots-HasNoDots false s))

append-HasNoDots :
    (s t : String) → HasNoDots s → HasNoDots t → begins_with_dot t ≡ false → HasNoDots (s +++ t)
append-HasNoDots nil t h k e = rw (append.nil t) k
append-HasNoDots (c :: nil) t (p, h) k e = rw (append.cons c nil t, append.nil t) ((λ _. e), k)
append-HasNoDots (c :: d :: s) t (p, h) k e =
    let rest : HasNoDots (d :: (s +++ t)) =
      subst HasNoDots (append.cons d s t) (append-HasNoDots (d :: s) t h k e) in
    rw (append.cons c (d :: s) t, append.cons d s t) (p, rest)

abbrev first_word : List String → String
first_word [] = nil
first_word (w ∷ ws) = w

-- The first part of a path begins as the path does, unless it is empty.
first_word-dot :
    (s : String) → begins_with_dot s ≡ false → begins_with_dot (first_word (split_slash s)) ≡ false
unfolding split_slash
first_word-dot nil h = refl
first_word-dot (c :: s) h = elim (Bool-cases (is_slash c)) [
  | inl e ↦ rw e refl
  | inr e ↦ rw e (pushed c (split_slash s) h)
]
  where
    pushed :
        (c : Char) (ws : List String)
        → is_dot c ≡ false
        → begins_with_dot (first_word (push c ws)) ≡ false
    pushed c [] h = h
    pushed c (w ∷ ws) h = h

push-HasNoDots :
    (c : Char) (ws : List String)
    → (is_dot c ≡ true → begins_with_dot (first_word ws) ≡ false)
    → All HasNoDots ws
    → All HasNoDots (push c ws)
push-HasNoDots c [] h k = (((λ _. refl), tt), tt)
push-HasNoDots c (w ∷ ws) h (k, ks) = ((h, k), ks)

split_slash-HasNoDots : (s : String) → HasNoDots s → All HasNoDots (split_slash s)
unfolding split_slash
split_slash-HasNoDots nil h = (tt, tt)
split_slash-HasNoDots (c :: s) (p, h) = elim (Bool-cases (is_slash c)) [
  | inl e ↦ rw e (tt, split_slash-HasNoDots s h)
  | inr e ↦
      rw e
        (push-HasNoDots c (split_slash s) (λ d. first_word-dot s (p d)) (split_slash-HasNoDots s h))
]

no_parent : (w : String) → HasNoDots w → str_eq w ".." ≡ false
no_parent w h = elim (Bool-cases (str_eq w "..")) [
  | inr e ↦ e
  | inl e ↦
      let dots : HasNoDots ".." = subst HasNoDots ((str_eq_iff w "..").0 e) h in cc (dots.0 refl)
]

kept-no_parent :
    (p : String → Bool) (ws : List String)
    → All HasNoDots ws
    → any (λ w. str_eq w "..") (keep p ws) ≡ false
kept-no_parent p [] h = refl
kept-no_parent p (w ∷ ws) (h, hs) = ground (arith, no_parent w h, kept-no_parent p ws hs)

valid_of :
    (s : String)
    → is_empty s ≡ false
    → is_absolute s ≡ false
    → HasNoDots s
    → validate_relative_path s ≡ true
unfolding validate_relative_path path_parts
valid_of s e a h =
    let inside =
      kept-no_parent (λ w. not (is_empty w) && not (str_eq w ".")) (split_slash s)
        (split_slash-HasNoDots s h) in
    rw (e, a, inside) refl

files-HasNoDots : (t : String) → HasNoDots t → HasNoDots ("/files/" +++ t)
files-HasNoDots t h =
    rw (append-prepend "/files/" t)
      ((λ e. cc), ((λ e. cc), ((λ e. cc), ((λ e. cc), ((λ e. cc), ((λ e. cc), ((λ e. cc), h)))))))

items-HasNoDots : (t : String) → HasNoDots t → HasNoDots ("items/" +++ t)
items-HasNoDots t h =
    rw (append-prepend "items/" t)
      ((λ e. cc), ((λ e. cc), ((λ e. cc), ((λ e. cc), ((λ e. cc), ((λ e. cc), h))))))

-- Whatever path a repository gives to a source file, the cache path made of it for an item whose
-- identifier has no two dots in a row is accepted: it leads nowhere above the cache.
pub generate_source_file_cache_path-validate :
    (item_id file_path : String)
    → HasNoDots item_id
    → validate_relative_path (generate_source_file_cache_path item_id file_path) ≡ true
unfolding generate_source_file_cache_path
generate_source_file_cache_path-validate item_id file_path h =
    let safe = drop_dots-HasNoDots false (strip_slashes file_path) in
    let tail = "/files/" +++ drop_dots false (strip_slashes file_path) in
    let plain : begins_with_dot tail ≡ false =
      rw (append-prepend "/files/" (drop_dots false (strip_slashes file_path))) refl in
    let below = append-HasNoDots item_id tail h (files-HasNoDots _ safe) plain in
    valid_of ("items/" +++ (item_id +++ tail))
      (rw (append-prepend "items/" (item_id +++ tail)) refl)
      (rw (append-prepend "items/" (item_id +++ tail)) refl)
      (items-HasNoDots (item_id +++ tail) below)
