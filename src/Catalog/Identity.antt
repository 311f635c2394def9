-- ===== src/Catalog/Identity.antt =====
-- The identity of a candidate: platform/backend/app/deduplication/identity.py. Parameters are
-- `urlsplit`, nothing where it raises, with the port nothing where reading it raises; `urlunsplit`
-- of a scheme, a host and a path; and the digest.
use Prim.Native.String.{String, [] as no_text, ◌∷◌ as ◌:∷◌, ◌++◌ as str_append}
use Prim.Native.Char.{code}
use discovery_application.Base.{
  ℕ, Bool, ◌&&◌, ◌||◌, Option, none, some, [], ◌∷◌, on_some, ◌==◌, str_eq, is_empty, if◌then◌else◌,
  lower, strip, join, decimal,
}
use discovery_application.Catalog.Models.{CandidateReference, Protocol}

pub record SplitUrl : Type 0 where
  pub scheme : String
  pub netloc : String
  pub hostname : Option String
  pub port : Option (Option ℕ)
  pub path : String

-- `s.rstrip("/")`.
unfoldable pub strip_slash : String → String
strip_slash no_text = no_text
strip_slash (c :∷ s) =
    let rest = strip_slash s in if is_empty rest && code c == b'/' then no_text else c :∷ rest

abbrev pub text_or : Option String → String → String
text_or none rest = rest
text_or (some s) rest = if is_empty s then rest else s

abbrev pub is_default_port : String → ℕ → Bool
is_default_port scheme port =
    (str_eq scheme "http" && port == 80) || (str_eq scheme "https" && port == 443)

abbrev pub with_port : String → String → Option ℕ → String
with_port scheme host none = host
with_port scheme host (some port) =
    if port == 0 || is_default_port scheme port
    then host
    else str_append host (str_append ":" (decimal port))

-- The fields of `normalized` that are read, absent where the key is.
pub record Normalized : Type 0 where
  pub server_id : Option String
  pub version : Option String
  pub tool_name : Option String
  pub endpoint : Option String
  pub agent_identity : Option String

abbrev pub cleaned : String → String
cleaned s = lower (strip s)

module _ (urlsplit : String → Option SplitUrl) (urlunsplit : String → String → String → String)
    (sha256 : String → String) where
  unfoldable pub norm_url : String → Option String
  norm_url value =
      if is_empty value
      then some ""
      else on_some (urlsplit (strip value))
          (λ parsed.
            on_some parsed.port
              (λ port. some (
                urlunsplit (lower parsed.scheme)
                  (with_port parsed.scheme (lower (text_or parsed.hostname "")) port)
                  (strip_slash parsed.path)))
              none)
          none

  -- The text that is hashed; nothing where the URL cannot be read.
  unfoldable pub raw_identity : CandidateReference → Normalized → Option String
  unfolding norm_url
  raw_identity candidate normalized =
      on_some (norm_url (text_or normalized.endpoint (text_or candidate.url "")))
        (λ endpoint. some (elim candidate.protocol [
          | Protocol.mcp ↦ join "|" (
              "mcp"
              ∷ cleaned (text_or normalized.server_id candidate.source_id)
              ∷ cleaned (text_or normalized.version "")
              ∷ cleaned (text_or normalized.tool_name "")
              ∷ endpoint
              ∷ [])
          | _ ↦ join "|" (
              "a2a"
              ∷ cleaned (text_or normalized.agent_identity candidate.source_id)
              ∷ endpoint
              ∷ [])
        ]))
        none

  unfoldable pub canonical_identity : CandidateReference → Normalized → Option String
  unfolding raw_identity
  canonical_identity candidate normalized =
      on_some (raw_identity candidate normalized) (λ raw. some (sha256 raw)) none
