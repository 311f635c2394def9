-- ===== src/Catalog/Reliability.antt =====
-- The reliability engine, platform/backend/app/reliability/engine.py. A score is in
-- ten-thousandths. The weighted sum is exact over the length of ninety days in microseconds, in
-- which the freshness of an item has its fractions.
pub mod Bounds
use Prim.Native.String.{◌++◌ as str_append}
use discovery_application.Base.{
  ℕ, ◌+◌, ◌-◌, ◌*◌, ◌/◌, ◌%◌, ltb, join, decimal, ◌<◌, min, String, Bool, true, false, not, ◌&&◌,
  ◌||◌, Option, none, some, List, [], ◌∷◌, length, on_some, leb, is_some, str_eq, is_empty,
  if◌then◌else◌, round_half_even,
}
use discovery_application.Catalog.Models.{Signals, Item, DiscoverySource, SourceType, Reliability}

-- What urlparse and ip_address tell of a URL: an address is local if it is a loopback, link-local
-- or multicast one, and a host that is no address is not.
pub record SourceUrl : Type 0 where
  pub scheme : String
  pub username : Option String
  pub password : Option String
  pub is_local_address : Bool

-- A signal of security in halves, with its reason.
pub record SecuritySignal : Type 0 where
  pub halves : ℕ
  pub reason : String

abbrev pub ninety_days : ℕ
ninety_days = 7776000000000

abbrev pub default_threshold : ℕ
default_threshold = 7500

abbrev pub is_given : Option String → Bool
is_given none = false
is_given (some s) = not (is_empty s)

abbrev pub source_quality : SourceType → ℕ
source_quality SourceType.mcp_registry = 100
source_quality SourceType.a2a_catalog = 90
source_quality SourceType.well_known = 95
source_quality SourceType.configured = 85
source_quality SourceType.github = 65
source_quality SourceType.web_search = 45
source_quality SourceType.web_page = 50

pub record ReliabilityEvaluationResult : Type 0 where
  pub score : ℕ
  pub confidence : ℕ
  pub approved : Bool
  pub signals : Signals
  pub reasons : List String
  pub security_validation : ℕ

abbrev pub flag : Bool → ℕ
flag b = if b then 100 else 0

-- A number of hundredths, as `:.2f` prints it.
abbrev pub two_decimals : ℕ → String
two_decimals n =
    join ""
      (decimal (n / 100) ∷ "." ∷ (if ltb (n % 100) 10 then "0" else "") ∷ decimal (n % 100) ∷ [])

-- The sum of the weighted signals, in ten-thousandths of ninety days.
unfoldable pub weighted : Signals → ℕ
weighted s =
    30 * s.protocol_validation * ninety_days
    + 15 * s.availability * ninety_days
    + 1000 * s.provenance * (ninety_days / 3)
    + 15 * s.source_quality * ninety_days
    + 1000 * s.freshness
    + 1000 * s.security_validation * ninety_days

module _ (urlparse : String → SourceUrl) where
  unfoldable pub security_signal : DiscoverySource → SecuritySignal
  security_signal source =
      on_some source.url
        (λ url.
          let parsed = urlparse url in
          if is_given parsed.username || is_given parsed.password
          then record { halves = 0; reason = "source URL contains embedded credentials" }
          else if not (str_eq parsed.scheme "http" || str_eq parsed.scheme "https")
          then record { halves = 0; reason = "source URL uses an unsupported scheme" }
          else if parsed.is_local_address
          then record {
            halves = 1;
            reason = "source targets a local/link-local address; deployment policy must allow it";
          }
          else record { halves = 2; reason = "source URL passed basic security validation" })
        (record { halves = 1; reason = "source has no URL; security validation is partial" })

  unfoldable pub signals_of : ℕ → Item → Bool → Bool → Signals
  unfolding security_signal
  signals_of now item protocol_validated available = record {
    protocol_validation = flag protocol_validated;
    availability = flag available;
    provenance = min 3 (length item.provenance);
    source_quality = source_quality item.source.type;
    freshness = ninety_days - (now - item.last_seen);
    security_validation = (security_signal item.source).halves;
  }

  unfoldable pub reasons_of : Item → Bool → Bool → Signals → List String
  unfolding security_signal
  reasons_of item protocol_validated available signals =
      (if protocol_validated
        then "protocol validation succeeded"
        else "protocol validation did not succeed")
      ∷ (if available
          then "availability check succeeded"
          else "availability check was not confirmed")
      ∷ str_append "source quality=" (two_decimals signals.source_quality)
      ∷ str_append "provenance sources=" (decimal (length item.provenance))
      ∷ str_append "freshness="
          (two_decimals (round_half_even (100 * signals.freshness) ninety_days))
      ∷ (security_signal item.source).reason
      ∷ []

  unfoldable pub evaluate : ℕ → ℕ → Item → Bool → Bool → ReliabilityEvaluationResult
  unfolding signals_of weighted reasons_of
  evaluate threshold now item protocol_validated available =
      let signals = signals_of now item protocol_validated available in
      let score = round_half_even (weighted signals) ninety_days in
      record {
        score = score;
        confidence = min 10000 (5000 + 1000 * length item.evidence + 1000 * length item.provenance);
        approved = leb threshold score;
        signals = signals;
        reasons = reasons_of item protocol_validated available signals;
        security_validation = signals.security_validation;
      }

unfoldable pub apply_evaluation : ℕ → Item → ReliabilityEvaluationResult → Item
apply_evaluation now item result = record item {
  reliability = record {
    score = result.score;
    confidence = result.confidence;
    scoring_version = "v1";
    last_evaluated = some now;
    security_validation = result.security_validation;
    signals = some result.signals;
    reasons = result.reasons;
  };
}
