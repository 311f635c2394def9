-- ===== src/Catalog/Reliability/Bounds.antt =====
-- The range of a score, and what an approval needs.
use discovery_application.Base.{
  ℕ, ◌+◌, ◌*◌, ◌≤◌, ◌<◌, ◌≡◌, refl, arith, String, Bool, true, false, leb→le, round_half_even-le,
}
use discovery_application.Catalog.Models.{Signals, Item, SourceType, DiscoverySource}
use discovery_application.Catalog.Reliability.{
  SourceUrl, ninety_days, source_quality, flag, weighted, security_signal, signals_of, evaluate,
}

-- Each signal in its range, the protocol's below a bound.
record InRange (bound : ℕ) (s : Signals) : Type 0 where
  protocol_validation : s.protocol_validation ≤ bound
  availability : s.availability ≤ 100
  provenance : s.provenance ≤ 3
  source_quality : s.source_quality ≤ 100
  freshness : s.freshness ≤ ninety_days
  security_validation : s.security_validation ≤ 2

source_quality-le : (t : SourceType) → source_quality t ≤ 100
source_quality-le SourceType.mcp_registry = omega arith
source_quality-le SourceType.a2a_catalog = omega arith
source_quality-le SourceType.well_known = omega arith
source_quality-le SourceType.configured = omega arith
source_quality-le SourceType.github = omega arith
source_quality-le SourceType.web_search = omega arith
source_quality-le SourceType.web_page = omega arith

weighted-le :
    {bound : ℕ} (s : Signals) → InRange bound s → weighted s ≤ (30 * bound + 7000) * ninety_days
unfolding weighted
weighted-le s h = omega arith

flag-le : (b : Bool) → flag b ≤ 100
flag-le b = ground arith

module _ (urlparse : String → SourceUrl) where
  security_signal-le : (source : DiscoverySource) → (security_signal urlparse source).halves ≤ 2
  unfolding security_signal
  security_signal-le source = ground arith

  signals_of-InRange :
      (now : ℕ) (item : Item) (protocol_validated available : Bool)
      → InRange
          (flag protocol_validated)
          (signals_of urlparse now item protocol_validated available)
  unfolding signals_of
  signals_of-InRange now item protocol_validated available = record {
    protocol_validation = omega arith;
    availability = flag-le available;
    provenance = omega arith;
    source_quality = source_quality-le item.source.type;
    freshness = omega arith;
    security_validation = security_signal-le item.source;
  }

  score-le :
      (threshold now : ℕ) (item : Item) (protocol_validated available : Bool)
      → (evaluate urlparse threshold now item protocol_validated available).score
        ≤ 30 * flag protocol_validated + 7000
  unfolding evaluate
  score-le threshold now item protocol_validated available =
      round_half_even-le _ ninety_days _ (omega arith)
        (weighted-le _ (signals_of-InRange now item protocol_validated available))

  -- The score and the confidence of an item are at most 1.
  pub evaluate_bounds :
      (threshold now : ℕ) (item : Item) (protocol_validated available : Bool)
      → ((evaluate urlparse threshold now item protocol_validated available).score ≤ 10000)
        × ((evaluate urlparse threshold now item protocol_validated available).confidence ≤ 10000)
  unfolding evaluate
  evaluate_bounds threshold now item protocol_validated available = (
    omega (
      arith,
      score-le threshold now item protocol_validated available,
      flag-le protocol_validated,
    ),
    omega arith,
  )

  -- With a threshold above 0.7, an approval needs the validation of the protocol.
  pub evaluate-approved :
      (threshold now : ℕ) (item : Item) (protocol_validated available : Bool)
      → 7000 < threshold
      → (evaluate urlparse threshold now item protocol_validated available).approved ≡ true
      → protocol_validated ≡ true
  unfolding evaluate
  evaluate-approved threshold now item true available h approved = refl
  evaluate-approved threshold now item false available h approved =
      absurd (omega (arith, score-le threshold now item false available, leb→le _ _ approved))

  pub evaluate-threshold :
      (threshold now : ℕ) (item : Item) (protocol_validated available : Bool)
      → (evaluate urlparse threshold now item protocol_validated available).approved ≡ true
      → threshold ≤ (evaluate urlparse threshold now item protocol_validated available).score
  unfolding evaluate
  evaluate-threshold threshold now item protocol_validated available approved = leb→le _ _ approved
