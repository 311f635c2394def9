-- ===== src/Artifacts/DiskCache/Atomic.antt =====
-- What reads see of a write.
use Prim.Native.String.{len}
use text.Mathlib.TextPositions.{len-append}
use discovery_application.Base.{
  ◌≡◌, ◌≢◌, refl, sym, ◌∙◌, ap, arith, String, Bool, true, false, ◌&&◌, Option, none, some, inl,
  inr, Bool-cases, str_eq, str_eq_iff, if◌then◌else◌, Dict, lookup, put, pop, lookup-put,
  lookup-put_other, lookup-pop, lookup-pop_other, text-cases,
}
use discovery_application.Artifacts.DiskCache.{
  Fault, no_fault, on_write, on_rename, temporary, path_below, names_file, write_cached_file,
  read_cached_file,
}

-- The cache as a client sees it: a file has a content or is missing, and a write is one step.
abbrev pub Contents : Type 0
Contents = String → Option String

abbrev pub written : Bool → String → String → Contents → Contents
written done path content store = λ q. if done && str_eq q path then some content else store q

abbrev pub contents : Dict String → Contents
contents files = λ q. lookup q files

temporary-ne-path : (s : String) → path_below s ≢ temporary s
temporary-ne-path s e = absurd (omega (arith, ap len e, len-append (path_below s) ".tmp"))

settled :
    (path other q content : String) (files : Dict String)
    → q ≢ other
    → path ≢ other
    → lookup q (put path content (pop other (put other content files)))
      ≡ (if str_eq q path then some content else lookup q files)
settled path other q content files h k = elim (text-cases q path) [
  | inl same ↦ rw ((str_eq_iff q path).1 same) (
      ap (λ p. lookup p (put path content (pop other (put other content files)))) same
      ∙ lookup-put path content _)
  | inr different ↦ rw (differs different) (
      lookup-put_other path q content _ different
      ∙ lookup-pop_other other q _ h
      ∙ lookup-put_other other q content files h)
]
  where
    differs : q ≢ path → str_eq q path ≡ false
    differs n = ground (arith, str_eq_iff q path)

-- A write refines one atomic step: whatever the operating system refuses, every file but the
-- temporary one of the path is afterwards as the step leaves it, which is with the new content
-- where the write reports success, and as before where it does not.
pub write_cached_file-written :
    (fault : Fault) (s content : String) (files : Dict String) (q : String)
    → q ≢ temporary s
    → contents (write_cached_file fault s content files).1 q
      ≡ written
          (write_cached_file fault s content files).0
          (path_below s)
          content
          (contents files)
          q
unfolding write_cached_file
write_cached_file-written no_fault s content files q h = elim (Bool-cases (names_file s)) [
  | inl e ↦ rw e (settled (path_below s) (temporary s) q content files h (temporary-ne-path s))
  | inr e ↦ rw e refl
]
write_cached_file-written (on_write part) s content files q h = elim (Bool-cases (names_file s)) [
  | inl e ↦ rw e (lookup-put_other (temporary s) q part files h)
  | inr e ↦ rw e refl
]
write_cached_file-written on_rename s content files q h = elim (Bool-cases (names_file s)) [
  | inl e ↦ rw e (lookup-put_other (temporary s) q content files h)
  | inr e ↦ rw e refl
]

-- A write of a file removes the cached file whose name is the same with `.tmp` at its end.
pub write_cached_file-clobbers :
    (s content t : String) (files : Dict String)
    → names_file s ≡ true
    → path_below t ≡ temporary s
    → read_cached_file false t (write_cached_file no_fault s content files).1 ≡ none
unfolding write_cached_file read_cached_file
write_cached_file-clobbers s content t files valid clash = elim (Bool-cases (names_file t)) [
  | inr e ↦ rw e refl
  | inl e ↦
      rw (e, valid, clash)
        (lookup-put_other (path_below s) (temporary s) content _
            (λ same. temporary-ne-path s (sym same))
          ∙ lookup-pop (temporary s) _)
]
