-- ===== src/Tests/DiskCache.antt =====
-- The disk cache on concrete files.
use discovery_application.Base.{◌≡◌, refl, String, true, false, some, join, [], ◌∷◌, Dict, ◌≢◌}
use discovery_application.Artifacts.DiskCache.{
  no_fault, on_write, on_rename, temporary, split_slash, path_parts, path_below,
  validate_relative_path, names_file, write_cached_file, read_cached_file, delete_cached_file,
  strip_slashes, drop_dots, generate_source_file_cache_path, generate_cache_path,
}
use discovery_application.Artifacts.DiskCache.Paths
use discovery_application.Artifacts.DiskCache.Atomic
use discovery_application.Artifacts.DiskCache.Atomic.{contents, written}

disk : Unit {0}
unfolding join split_slash path_parts path_below validate_relative_path names_file write_cached_file
    read_cached_file delete_cached_file strip_slashes drop_dots generate_source_file_cache_path
    generate_cache_path
disk = tt

paths :
    (path_below "items//./7/a.json" ≡ "items/7/a.json")
    × (validate_relative_path "items/../x" ≡ false)
    × (validate_relative_path "/etc/passwd" ≡ false)
    × (generate_source_file_cache_path "7" "/../../etc/...x" ≡ "items/7/files///etc/.x")
    × (generate_cache_path "7" "integration" "json" ≡ "items/7/integration.json")
unfolding disk
paths = (refl, refl, refl, refl, refl)

abbrev files : Dict String
files = ("items/7/files/a", "old") ∷ ("items/7/files/a.tmp", "other") ∷ []

rewritten :
    (read_cached_file false "items/7/files/a"
        (write_cached_file no_fault "items/7/files/a" "new" files).1
      ≡ some "new")
    × (read_cached_file false "items/7/files/a"
          (write_cached_file on_rename "items/7/files/a" "new" files).1
        ≡ some "old")
unfolding disk
rewritten = (refl, refl)

generate_source_file_cache_path-validate_example :
    validate_relative_path (generate_source_file_cache_path "7" "/../x") ≡ true
generate_source_file_cache_path-validate_example =
    Paths.generate_source_file_cache_path-validate "7" "/../x" ((λ _. refl), tt)

a-ne-temporary : "items/7/files/a" ≢ temporary "items/7/files/a"
unfolding disk
a-ne-temporary = λ e. cc e

write_cached_file-written_example :
    contents (write_cached_file (on_write "ne") "items/7/files/a" "new" files).1 "items/7/files/a"
    ≡ written
        (write_cached_file (on_write "ne") "items/7/files/a" "new" files).0
        (path_below "items/7/files/a")
        "new"
        (contents files)
        "items/7/files/a"
write_cached_file-written_example =
    Atomic.write_cached_file-written (on_write "ne") "items/7/files/a" "new" files "items/7/files/a"
      a-ne-temporary
