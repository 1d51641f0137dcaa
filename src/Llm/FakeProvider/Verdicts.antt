-- ===== src/Llm/FakeProvider/Verdicts.antt =====
-- legacy/packages/llm/src/fake-provider.ts, `critique`: the verdict of the offline provider.
use content_gap.Prelude.{not, [], none, some, if◌then◌else◌}
use content_gap.Prelude.Text.{Text, codes, is_empty}
use content_gap.Shared.Enums.{CritiqueAction}
use content_gap.Shared.Results.{Result}
use content_gap.Shared.Schemas.Payloads.{CritiqueVerdict}
use content_gap.Shared.Schemas.Parsing.{parse_verdict}
use content_gap.Llm.Types.{CritiqueInput}

abbrev pub duplicate_title : CritiqueInput → Text
duplicate_title c = elim c.is_duplicate_of_title [ none ↦ [] | some title ↦ title ]

unfoldable pub raw_verdict : CritiqueInput → CritiqueVerdict
raw_verdict c =
    if not c.has_verified_customer_demand
    then record {
      action = CritiqueAction.downgrade;
      reason = codes "No verified first-party customer demand; treat as hypothesis.";
      merge_with_title = none;
    }
    else if c.has_verified_owned_coverage_already
    then record {
      action = CritiqueAction.reject;
      reason = codes "Owned content already answers this need with proof.";
      merge_with_title = none;
    }
    else if not (is_empty (duplicate_title c))
    then record {
      action = CritiqueAction.merge;
      reason = codes "Duplicate of an existing candidate.";
      merge_with_title = c.is_duplicate_of_title;
    }
    else if c.looks_like_non_content_problem
    then record {
      action = CritiqueAction.mark_non_content;
      reason = codes "Appears to be an offer/operational problem, not a content gap.";
      merge_with_title = none;
    }
    else record {
      action = CritiqueAction.accept;
      reason = codes "Evidenced, non-duplicate, coverage insufficient, cohort relevant.";
      merge_with_title = none;
    }

-- `critique` less the counting of tokens
unfoldable pub fake_verdict : CritiqueInput → Result CritiqueVerdict
unfolding raw_verdict parse_verdict
fake_verdict c = parse_verdict (raw_verdict c)
