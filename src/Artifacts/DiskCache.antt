-- ===== src/Artifacts/DiskCache.antt =====
-- The disk cache of artifacts, platform/backend/app/artifacts/disk_cache.py. The files under the
-- cache root are a dict from their path below the root, written in the one way that `Path` writes
-- it. What the operating system refuses is an argument of each call.
pub mod Paths
pub mod Atomic
use Prim.Native.Char.{Char, code}
use Prim.Native.String.{[] as nil, ◌∷◌ as ◌::◌, ◌++◌ as ◌+++◌}
use discovery_application.Base.{
  String, Bool, true, false, not, ◌&&◌, ◌||◌, Option, none, some, List, [], ◌∷◌, keep, any, is_nil,
  ◌==◌, str_eq, if◌then◌else◌, is_empty, join, Dict, lookup, put, pop,
}

abbrev pub is_slash : Char → Bool
is_slash c = code c == 47

abbrev pub is_dot : Char → Bool
is_dot c = code c == 46

abbrev pub push : Char → List String → List String
push c [] = (c :: nil) ∷ []
push c (w ∷ ws) = (c :: w) ∷ ws

-- `s.split("/")`.
unfoldable pub split_slash : String → List String
split_slash nil = nil ∷ []
split_slash (c :: s) = let rest = split_slash s in if is_slash c then nil ∷ rest else push c rest

-- The parts of `Path(s)`, which drops empty ones and `.`, and the path that it writes.
unfoldable pub path_parts : String → List String
unfolding split_slash
path_parts s = keep (λ w. not (is_empty w) && not (str_eq w ".")) (split_slash s)

unfoldable pub path_below : String → String
unfolding path_parts
path_below s = join "/" (path_parts s)

-- `Path(s)` begins with a slash where `s` does.
abbrev pub is_absolute : String → Bool
is_absolute nil = false
is_absolute (c :: s) = is_slash c

-- `_validate_relative_path`: false where it raises ValueError.
unfoldable pub validate_relative_path : String → Bool
unfolding path_parts
validate_relative_path s =
    not (is_empty s) && not (is_absolute s || any (λ w. str_eq w "..") (path_parts s))

-- What the operating system refuses of a write: nothing, the temporary file, of which it may hold a
-- part, or the renaming.
pub data Fault : Type 0 where
  no_fault : Fault
  on_write : String → Fault
  on_rename : Fault

abbrev pub temporary : String → String
temporary s = path_below s +++ ".tmp"

-- A path that can name a file: valid, and not the root itself.
unfoldable pub names_file : String → Bool
unfolding validate_relative_path
names_file s = validate_relative_path s && not (is_nil (path_parts s))

-- `write_cached_file`: its result, and the files.
unfoldable pub write_cached_file : Fault → String → String → Dict String → Bool × Dict String
unfolding names_file
write_cached_file no_fault s content files =
    if names_file s
    then (true, put (path_below s) content (pop (temporary s) (put (temporary s) content files)))
    else (false, files)
write_cached_file (on_write part) s content files =
    if names_file s then (false, put (temporary s) part files) else (false, files)
write_cached_file on_rename s content files =
    if names_file s then (false, put (temporary s) content files) else (false, files)

-- `read_cached_file`; `fails` where the operating system or the decoding does.
unfoldable pub read_cached_file : Bool → String → Dict String → Option String
unfolding names_file
read_cached_file fails s files =
    if not (names_file s) || fails then none else lookup (path_below s) files

-- `delete_cached_file`.
unfoldable pub delete_cached_file : Bool → String → Dict String → Bool × Dict String
unfolding names_file
delete_cached_file fails s files =
    if not (names_file s) || fails then (false, files) else (true, pop (path_below s) files)

-- `s.lstrip("/")`.
unfoldable pub strip_slashes : String → String
strip_slashes nil = nil
strip_slashes (c :: s) = if is_slash c then strip_slashes s else c :: s

-- `s.replace("..", "")`, after a dot that is not yet written or without one.
unfoldable pub drop_dots : Bool → String → String
drop_dots false nil = nil
drop_dots true nil = "."
drop_dots false (c :: s) = elim (is_dot c) [
  | true ↦ drop_dots true s
  | false ↦ c :: drop_dots false s
]
drop_dots true (c :: s) = elim (is_dot c) [
  | true ↦ drop_dots false s
  | false ↦ "." +++ (c :: drop_dots false s)
]

-- `generate_source_file_cache_path`.
unfoldable pub generate_source_file_cache_path : String → String → String
unfolding strip_slashes drop_dots
generate_source_file_cache_path item_id file_path =
    "items/" +++ (item_id +++ ("/files/" +++ drop_dots false (strip_slashes file_path)))

-- `generate_cache_path`.
unfoldable pub generate_cache_path : String → String → String → String
generate_cache_path item_id artifact_type extension =
    "items/" +++ (item_id +++ ("/" +++ (artifact_type +++ ("." +++ extension))))
