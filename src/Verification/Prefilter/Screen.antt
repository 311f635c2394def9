-- ===== src/Verification/Prefilter/Screen.antt =====
-- What passes the prefilter, and what is rejected by it.
use discovery_application.Base.{
  ◌≡◌, refl, arith, String, Bool, true, false, ◌||◌, Option, none, some, List, [], ◌∷◌, ◌++◌, ◌⊎◌,
  inl, inr, is_nil, str_eq, is_empty, strip, Bool-cases, Option-cases,
}
use discovery_application.Verification.Models.{McpServerRecord, is_local}
use discovery_application.Verification.Timeouts.{text_or_empty}
use discovery_application.Verification.Prefilter.{
  ParsedUrl, PrefilterResult, prefilter_server, known_incompatible_reason,
  is_known_incompatible_host, install_cmd_is_incompatible, shape_failures, dns_failures,
}

abbrev pub endpoint_of : McpServerRecord → String
endpoint_of r = strip (text_or_empty r.endpoint_url)

nil-append {ℓ} :
    {A : Type ℓ} (xs ys : List A)
    → is_nil (xs ++ ys) ≡ true
    → (is_nil xs ≡ true) × (is_nil ys ≡ true)
nil-append [] ys h = (refl, h)
nil-append (x ∷ xs) ys h = cc h

module _ (urlparse : String → Option ParsedUrl) (dns_resolver : Option (String → Option Bool)) where
  -- A local record has a command that does not go through an excluded proxy; a remote one has an
  -- http(s) endpoint with a host part, on no excluded platform.
  pub IsAddressable : McpServerRecord → Type 0
  IsAddressable r =
      ((is_local r.transport ≡ true)
        × (is_empty (strip (text_or_empty r.install_cmd)) ≡ false)
        × (install_cmd_is_incompatible r.install_cmd ≡ false))
      ⊎ ((is_local r.transport ≡ false)
          × (is_empty (endpoint_of r) ≡ false)
          × (is_known_incompatible_host urlparse (some (endpoint_of r)) ≡ false)
          × ((parsed : ParsedUrl) × (urlparse (endpoint_of r) ≡ some parsed)
              × ((str_eq parsed.scheme "http" || str_eq parsed.scheme "https") ≡ true)
              × (is_empty parsed.netloc ≡ false)))

  passed_of : {a p : PrefilterResult} → some a ≡ some p → p.passed ≡ true → a.passed ≡ true
  passed_of e h = cc (e, h)

  shape-fine :
      (r : McpServerRecord) (parsed : ParsedUrl)
      → is_nil (shape_failures urlparse r (endpoint_of r) parsed) ≡ true
      → ((str_eq parsed.scheme "http" || str_eq parsed.scheme "https") ≡ true)
        × (is_empty parsed.netloc ≡ false)
  shape-fine r parsed h = (ground arith, ground arith)

  -- A record passes the prefilter only if it is addressable, whatever the resolver says.
  pub prefilter_server-passed :
      (r : McpServerRecord) (p : PrefilterResult)
      → prefilter_server urlparse dns_resolver r ≡ some p
      → p.passed ≡ true
      → IsAddressable r
  unfolding prefilter_server IsAddressable is_known_incompatible_host
  prefilter_server-passed r p e h = elim (Bool-cases (is_local r.transport)) [
    | inl here ↦ elim (Bool-cases (is_empty (strip (text_or_empty r.install_cmd)))) [
      | inl blank ↦ cc (passed_of (rw (prefilter_server, here, blank) at e) h)
      | inr filled ↦ elim (Bool-cases (install_cmd_is_incompatible r.install_cmd)) [
        | inl proxied ↦ cc (passed_of (rw (prefilter_server, here, filled, proxied) at e) h)
        | inr direct ↦ inl (here, filled, direct)
      ]
    ]
    | inr there ↦ elim (Bool-cases (is_empty (endpoint_of r))) [
      | inl blank ↦ cc (passed_of (rw (prefilter_server, there, blank) at e) h)
      | inr filled ↦ elim (Option-cases (urlparse (endpoint_of r))) [
        | inl bad ↦
            (let raised : none ≡ some p = rw (prefilter_server, there, filled, bad) at e in
              cc raised)
        | inr (parsed, good) ↦
            elim (Option-cases (known_incompatible_reason urlparse (some (endpoint_of r)))) [
              | inr (reason, listed) ↦
                  cc (passed_of (rw (prefilter_server, there, filled, good, listed) at e) h)
              | inl free ↦
                  let all_fine =
                    passed_of (rw (prefilter_server, there, filled, good, free) at e) h in
                  let (named, hosted) =
                    shape-fine r parsed
                      (nil-append _ (dns_failures urlparse dns_resolver parsed) all_fine).0 in
                  inr (
                    there,
                    filled,
                    rw (is_known_incompatible_host, free) refl,
                    (parsed, good, named, hosted),
                  )
            ]
      ]
    ]
  ]

  -- The prefilter raises where `urlparse` does.
  pub prefilter_server-raised :
      (r : McpServerRecord)
      → is_local r.transport ≡ false
      → is_empty (endpoint_of r) ≡ false
      → urlparse (endpoint_of r) ≡ none
      → prefilter_server urlparse dns_resolver r ≡ none
  unfolding prefilter_server
  prefilter_server-raised r there filled bad = rw (prefilter_server, there, filled, bad) refl
