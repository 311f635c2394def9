-- ===== src/Tests/Catalog.antt =====
-- Candidates that become items, and items that are ranked.
use discovery_application.Base.{
  ℕ, ◌+◌, ◌≤◌, ◌<◌, ◌≡◌, ◌≢◌, ◌⊎◌, ◌∙◌, sym, ap, str_eq_iff, refl, arith, String, true, false,
  Option, none, some, List, [], ◌∷◌, All, In, inl, inr, length, lower, strip, join, contains,
  ends_with, decimal, round_half_even,
}
use discovery_application.Catalog.Models.{
  unevaluated, Item, ItemType, SourceType, Protocol, CandidateReference,
}
use discovery_application.Catalog.Identity.{SplitUrl, strip_slash, canonical_identity}
use discovery_application.Catalog.Reliability.{SourceUrl, evaluate, ReliabilityEvaluationResult}
use discovery_application.Catalog.Reliability.Bounds
use discovery_application.Catalog.Normalization.{Attempt, ok, rejected, Resolution}
use discovery_application.Catalog.Admission.{normalize_candidate}
use discovery_application.Catalog.Admission.Accepted
use discovery_application.Catalog.Admission.Accepted.{AreBacked}
use discovery_application.Catalog.Deduplication.{deduplicate, item_deduplication_key}
use discovery_application.Catalog.Deduplication.Groups
use discovery_application.Catalog.Deduplication.Groups.{evidence_ids}
use discovery_application.Catalog.Phase10.{Phase10Result, item_has_protocol_evidence, process}
use discovery_application.Catalog.Phase10.Accounts
use discovery_application.Catalog.Phase10.Accounts.{IsApproved}
use discovery_application.Catalog.Ranking.{
  default_weights, rank_item, rank_items, lexical_relevance, is_strong, meaningful_query_terms,
}
use discovery_application.Catalog.Ranking.Order
use discovery_application.Catalog.Ranking.Shown
use discovery_application.Catalog.Ranking.Shown.{
  AreIdentified, IsRow, IsStrong, StrongFirst, relevance, row_of,
}

catalog_test : Unit {0}
unfolding evaluate normalize_candidate canonical_identity deduplicate item_deduplication_key process
    rank_items lexical_relevance contains strip lower join ends_with decimal round_half_even
    strip_slash item_has_protocol_evidence
catalog_test = tt

abbrev candidate : Protocol → String → CandidateReference
candidate protocol name = record {
  candidate_id = name;
  protocol = protocol;
  item_type = ItemType.tool;
  source_type = SourceType.github;
  source_provider = "GitHub";
  source_id = name;
  url = none;
  repository_url = some name;
  title = name;
  description = "an MCP server";
  evidence = "readme names tools/list" ∷ [];
  source_candidate = none;
}

abbrev digest : String → String
digest s = s

abbrev split_url : String → Option SplitUrl
split_url s =
    some
      (record { scheme = "https"; netloc = "h"; hostname = some "h"; port = some none; path = s })

abbrev split_valid : String → SplitUrl
split_valid s = record {
  scheme = "https";
  netloc = "h";
  hostname = some "h";
  port = some none;
  path = s;
}

abbrev unsplit : String → String → String → String
unsplit scheme host path = path

abbrev safe_url : String → SourceUrl
safe_url s = record { scheme = "https"; username = none; password = none; is_local_address = false }

abbrev unanswered : CandidateReference → Attempt (Option Resolution)
unanswered c = ok none

abbrev small : CandidateReference → Attempt (Unit {0})
small c = ok tt

abbrev normalized : CandidateReference → Attempt (List Item)
normalized c = normalize_candidate digest 5 split_url unsplit digest unanswered small c

abbrev the_item : String → Item
the_item name = record {
  item_id = name;
  canonical_id = some name;
  type = ItemType.tool;
  name = name;
  description = "";
  source = record { type = SourceType.github; id = name; url = none; provider = some "GitHub" };
  provenance = [];
  evidence =
      record {
        evidence_id = name;
        kind = "discovery";
        statement = "MCP";
        source = record {
          type = SourceType.github;
          id = name;
          url = none;
          provider = some "GitHub";
        };
        observed_at = 1;
      }
      ∷ [];
  version = none;
  reliability = record unevaluated { score = 9000; confidence = 9000 };
  last_seen = 5;
  tool = none;
  artifacts_source_url = none;
  embedding = some "";
}

evaluate_bounds_example :
    ((evaluate safe_url 7500 9 (the_item "mail") true true).score ≤ 10000)
    × ((evaluate safe_url 7500 9 (the_item "mail") true true).confidence ≤ 10000)
evaluate_bounds_example = Bounds.evaluate_bounds safe_url 7500 9 (the_item "mail") true true

score_of_item : (evaluate safe_url 7500 9 (the_item "mail") true true).score ≡ 7475
unfolding catalog_test
score_of_item = refl

abbrev key : Item → String
key item = item_deduplication_key split_valid unsplit item

abbrev embedded : Item → String
embedded item = ""

-- The database counts its writes.
abbrev written : Item → ReliabilityEvaluationResult → ℕ → Option ℕ
written item evaluation writes = some (writes + 1)

abbrev ended : Option (ℕ × Phase10Result) → ℕ × Phase10Result
ended none = (
  0,
  record { candidates_seen = 0; resolved = 0; deduplicated = 0; approved = []; rejected = [] },
)
ended (some out) = out

abbrev given : List CandidateReference
given =
    candidate Protocol.mcp "mail"
    ∷ candidate Protocol.a2a "chat"
    ∷ candidate Protocol.mcp "mail"
    ∷ []

abbrev processed : Option (ℕ × Phase10Result)
processed = process safe_url 7100 9 embedded written normalized key given 0

counts :
    ((ended processed).0 ≡ 1)
    × (length (ended processed).1.approved ≡ 1)
    × (length (ended processed).1.rejected ≡ 1)
    × ((ended processed).1.resolved ≡ 2)
unfolding catalog_test
counts = (refl, refl, refl, refl)

process-accounts_example :
    (out : ℕ × Phase10Result) × (process safe_url 7100 9 embedded written normalized key given 0
      ≡ some out)
    × (out.1.candidates_seen ≡ length given)
    × (out.1.candidates_seen + out.1.deduplicated
        ≡ out.1.resolved + length out.1.approved + length out.1.rejected)
process-accounts_example =
    Accounts.process-accounts safe_url 7100 9 embedded written (λ item r db. (db + 1, refl))
      normalized key given 0

process-AreApproved_example : All (IsApproved 7100) (ended processed).1.approved
unfolding catalog_test
process-AreApproved_example =
    Accounts.process-AreApproved safe_url 7100 9 embedded written normalized key given 0
      (ended processed).0 (ended processed).1 (omega arith) refl

abbrev accepted : Attempt (List Item) → List Item
accepted (ok items) = items
accepted (rejected reason evidence) = []
accepted (Attempt.crashed message) = []

normalize_candidate-AreBacked_example :
    ((candidate Protocol.mcp "mail").protocol ≡ Protocol.mcp)
    × (small (candidate Protocol.mcp "mail") ≡ ok tt)
    × AreBacked
        (candidate Protocol.mcp "mail")
        (accepted (normalized (candidate Protocol.mcp "mail")))
unfolding catalog_test
normalize_candidate-AreBacked_example =
    Accepted.normalize_candidate-AreBacked digest 5 split_url unsplit digest unanswered small
      (candidate Protocol.mcp "mail") (accepted (normalized (candidate Protocol.mcp "mail"))) refl

deduplicate_complete_example :
    (group : Item) × In group (deduplicate key (the_item "mail" ∷ the_item "chat" ∷ []))
    × (key group ≡ key (the_item "chat"))
    × In "chat" (evidence_ids group.evidence)
deduplicate_complete_example =
    Groups.deduplicate_complete split_valid unsplit (the_item "mail" ∷ the_item "chat" ∷ [])
      (the_item "chat") "chat" (inr (inl refl)) (inl refl)

abbrev same : String → String
same s = s

abbrev unlike : String → ℕ
unlike s = 0

rank_item-strong_example :
    (rank_item embedded unlike default_weights 9
      (lexical_relevance same ("mail" ∷ []) (the_item "chat"))
      (the_item "chat")).final_score
    < (rank_item embedded unlike default_weights 9
        (lexical_relevance same ("mail" ∷ []) (the_item "mail"))
        (the_item "mail")).final_score
unfolding catalog_test
rank_item-strong_example =
    Order.rank_item-strong embedded unlike 9 same ("mail" ∷ []) (the_item "mail") (the_item "chat")
      (λ vector. omega arith) (omega arith) refl refl

abbrev both : List Item
both = the_item "chat" ∷ the_item "mail" ∷ []

chat_not_mail : ◌≢◌ {A = String} "chat" "mail"
chat_not_mail = ground (arith, str_eq_iff "chat" "mail")

two-AreIdentified : AreIdentified same (meaningful_query_terms "mail server") both
two-AreIdentified x y (inl e) (inl f) own = e ∙ sym f
two-AreIdentified x y (inl e) (inr (inl f)) own =
    absurd (chat_not_mail (sym (ap (λ z. z.item_id) e) ∙ own ∙ ap (λ z. z.item_id) f))
two-AreIdentified x y (inl e) (inr (inr j)) own = absurd j
two-AreIdentified x y (inr (inl e)) (inl f) own =
    absurd (chat_not_mail (sym (ap (λ z. z.item_id) f) ∙ sym own ∙ ap (λ z. z.item_id) e))
two-AreIdentified x y (inr (inl e)) (inr (inl f)) own = e ∙ sym f
two-AreIdentified x y (inr (inl e)) (inr (inr j)) own = absurd j
two-AreIdentified x y (inr (inr i)) j own = absurd i

rank_items-StrongFirst_example :
    All
      (λ row.
        IsRow same
          (meaningful_query_terms "mail server")
          embedded
          unlike
          9
          (λ v. omega arith)
          both
          row
        × (IsStrong same (meaningful_query_terms "mail server") row
            ⊎ (relevance same (meaningful_query_terms "mail server") row.item ≡ 0)))
      (rank_items embedded unlike default_weights 9 same "mail server" both)
    × ((x : Item)
        → In x both
        → is_strong same (relevance same (meaningful_query_terms "mail server") x) ≡ true
        → In
            (row_of same
              (meaningful_query_terms "mail server")
              embedded
              unlike
              9
              (λ v. omega arith)
              x)
            (rank_items embedded unlike default_weights 9 same "mail server" both))
    × StrongFirst same
        (meaningful_query_terms "mail server")
        (rank_items embedded unlike default_weights 9 same "mail server" both)
unfolding catalog_test
rank_items-StrongFirst_example =
    Shown.rank_items-StrongFirst embedded unlike 9 (λ v. omega arith) same "mail server" both
      (the_item "mail") two-AreIdentified (omega arith, (omega arith, tt)) (inr (inl refl)) refl
