-- ===== src/Engine/Pipeline/CoverageMatrix.antt =====
-- legacy/packages/analysis-engine/src/pipeline.ts, stage `coverage-matrix`: the owned units that speak
-- of the needs, what the model says of each need, and the cells that are kept of it.
pub mod Offered
use content_gap.Prelude.{
  ℕ, Bool, false, not, ◌&&◌, ◌||◌, List, [], ◌∷◌, ◌++◌, Option, none, some, map, filter, any, find,
  drop, length, if◌then◌else◌,
}
use content_gap.Prelude.Text.{Text, codes, text_eq, has, includes, map_get}
use content_gap.Shared.Enums.{OwnerType, SignalType, CoverageStatus}
use content_gap.Shared.Results.{Result, ok}
use content_gap.Shared.Schemas.Payloads.{CoverageClassification, CoverageResponse}
use content_gap.Database.Tables.{ContentUnit, CoverageCell, ExtractedSignalRow}
use content_gap.Llm.Types.{CoverageInput, CoverageNeed, OwnedUnit, LlmResult}
use content_gap.Llm.Injection.{lower_ascii}
use content_gap.Engine.Ingest.{same_owner}
use content_gap.Engine.SemanticDedup.{signal_type_literal}
use content_gap.Engine.Retrieval.{Floats, Indexed, top_k, keyword_overlap}
use content_gap.Engine.Pipeline.Store.{M, pure, lift, after, ◌>>=◌, ◌>>◌, modify, Store, Corpus}
use content_gap.Engine.Pipeline.Verification.{NeedRow, Coverage, CoverageEntry}
use content_gap.Engine.Pipeline.DecisionSupport.{unit_key, unit_text}

unfoldable pub coverage_strength_of : CoverageStatus → ℕ
coverage_strength_of CoverageStatus.none = 0
coverage_strength_of CoverageStatus.mention_only = 1
coverage_strength_of CoverageStatus.weak = 2
coverage_strength_of CoverageStatus.unsupported = 2
coverage_strength_of CoverageStatus.outdated = 2
coverage_strength_of CoverageStatus.partial = 3
coverage_strength_of CoverageStatus.oversaturated = 3
coverage_strength_of CoverageStatus.strong = 5

abbrev pub offer_words : List Text
offer_words =
    codes "offer"
    ∷ codes "book"
    ∷ codes "demo"
    ∷ codes "trial"
    ∷ codes "pricing"
    ∷ (0x627 ∷ 0x62d ∷ 0x62c ∷ 0x632 ∷ [])
    ∷ (0x62a ∷ 0x648 ∷ 0x627 ∷ 0x635 ∷ 0x644 ∷ [])
    ∷ (0x639 ∷ 0x631 ∷ 0x636 ∷ [])
    ∷ []

-- `/offer|book|…/i.test(body)`
unfoldable pub mentions_offer : Text → Bool
mentions_offer body = any (includes (map lower_ascii body)) offer_words

unfoldable pub owned_units_of : Corpus → List ContentUnit
owned_units_of corpus = filter (λ u. same_owner u.owner_type OwnerType.owned) corpus.units

-- `signalsByUnit.get(id) ?? []`, and `includes` on it
unfoldable pub types_of : List ExtractedSignalRow → Text → List SignalType
types_of signals unit_id =
    map (λ s. s.signal_type) (filter (λ s. text_eq s.content_unit_id unit_id) signals)

unfoldable pub has_type : SignalType → List SignalType → Bool
unfolding signal_type_literal
has_type t types = any (λ u. text_eq (signal_type_literal t) (signal_type_literal u)) types

-- An entry of `matchedByNeed`.
pub record Matched : Type 0 where
  pub need_id : Text
  pub unit_ids : List Text

unfoldable pub coverage_need : NeedRow → CoverageNeed
coverage_need n = record {
  need_key = n.id;
  cohort_id = n.cohort_id;
  journey_stage = n.journey_stage;
  normalized_need = n.normalized_need;
  description = [];
}

unfoldable pub matched_for : List Matched → Text → List Text
unfolding map_get
matched_for matched need_id = elim (map_get (λ m. m.need_id) need_id matched) [
  | none ↦ []
  | some m ↦ m.unit_ids
]

module _ {F : Type 0} (floats : Floats F) (embed : List Text → Result (List (List F)))
    (to_lower_case : Text → Text) (split_words : Text → List Text) (corpus : Corpus)
    (vectors : List (Indexed F)) where
  -- `t.id.replace("unit:", "")` takes away what `unit_key` put in front.
  abbrev pub real_id : Text → Text
  real_id id = drop 5 id

  -- The test on a unit of the shortlist, which the `find` with `!` gives.
  unfoldable pub unit_matches : Text → Text → Bool
  unfolding owned_units_of keyword_overlap
  unit_matches need id = elim (find (λ u. text_eq u.id id) (owned_units_of corpus)) [
    | none ↦ false
    | some u ↦ keyword_overlap to_lower_case split_words (unit_text u) need
  ]

  unfoldable pub match_need : NeedRow → M Matched
  unfolding owned_units_of unit_matches top_k
  match_need n = do
    top ← lift (
        top_k floats embed vectors n.normalized_need
          (map (λ u. unit_key u.id) (owned_units_of corpus)) 4)
    pure (record {
      need_id = n.id;
      unit_ids = filter (unit_matches n.normalized_need) (map (λ t. real_id t.id) top);
    })

  unfoldable pub match_needs : List NeedRow → M (List Matched)
  unfolding match_need
  match_needs [] = pure []
  match_needs (n ∷ ns) = do m ← match_need n; ms ← match_needs ns; pure (m ∷ ms)

-- `is_old` is `isOlderThan(…, 365 * 2, referenceDate)`.
module _ (is_old : Option Text → Bool) (signals : List ExtractedSignalRow)
    (need_rows : List NeedRow) (matched : List Matched) where
  unfoldable pub is_shortlisted : ContentUnit → Bool
  is_shortlisted u = any (λ m. has m.unit_ids u.id) matched

  unfoldable pub owned_unit_input : ContentUnit → OwnedUnit
  unfolding types_of has_type mentions_offer matched_for
  owned_unit_input u =
      let types = types_of signals u.id in
      record {
        id = u.id;
        title = u.title;
        text = u.body;
        has_proof_signal = has_type SignalType.proof types;
        connects_to_offer = mentions_offer u.body || has_type SignalType.cta types;
        has_cta = has_type SignalType.cta types;
        is_outdated = is_old u.published_at;
        has_unsupported_claim =
            has_type SignalType.claim types && not (has_type SignalType.proof types);
        matched_need_keys =
            map (λ n. n.id) (filter (λ n. has (matched_for matched n.id) u.id) need_rows);
      }

  unfoldable pub coverage_input : Corpus → CoverageInput
  unfolding is_shortlisted owned_unit_input owned_units_of coverage_need
  coverage_input corpus = record {
    needs = map coverage_need need_rows;
    owned_units = map owned_unit_input (filter is_shortlisted (owned_units_of corpus));
  }

unfoldable pub project_signals : Text → Store → List ExtractedSignalRow
project_signals project_id s = filter (λ r. text_eq r.project_id project_id) s.extracted_signals

unfoldable pub read_signals : Text → M (List ExtractedSignalRow)
unfolding project_signals
read_signals project_id s = (s, ok (project_signals project_id s))

module _ (project_id : Text) (need_rows : List NeedRow) where
  unfoldable pub coverage_cell : NeedRow → CoverageClassification → CoverageCell
  unfolding coverage_strength_of
  coverage_cell need c = record {
    project_id = project_id;
    cohort_id = need.cohort_id;
    journey_stage = need.journey_stage;
    need_type = need.need_type;
    normalized_need = need.normalized_need;
    coverage_status = c.coverage_status;
    coverage_strength = coverage_strength_of c.coverage_status;
    supporting_asset_count = length c.matched_content_unit_ids;
    effective_asset_count = if c.has_proof then length c.matched_content_unit_ids else 0;
    evidence = c.matched_content_unit_ids;
  }

  unfoldable pub coverage_value : CoverageClassification → Coverage
  coverage_value c = record {
    status = c.coverage_status;
    unit_ids = c.matched_content_unit_ids;
    summary = c.summary;
    has_proof = c.has_proof;
  }

  -- `map.set(key, value)`
  unfoldable pub set_coverage : Text → Coverage → List CoverageEntry → List CoverageEntry
  set_coverage key cov [] = record { need_key = key; coverage = cov } ∷ []
  set_coverage key cov (e ∷ es) =
      if text_eq e.need_key key
      then record { need_key = key; coverage = cov } ∷ es
      else e ∷ set_coverage key cov es

  unfoldable pub insert_cell : CoverageCell → M (Unit {0})
  insert_cell cell = modify λ s. record s { coverage_cells = s.coverage_cells ++ (cell ∷ []) }

  -- The loop over the classifications.
  unfoldable pub add_cells :
      List CoverageEntry → List CoverageClassification → M (List CoverageEntry)
  unfolding coverage_cell coverage_value set_coverage insert_cell
  add_cells entries [] s = (s, ok entries)
  add_cells entries (c ∷ cs) s = elim (find (λ n. text_eq n.id c.need_key) need_rows) [
    | none ↦ add_cells entries cs s
    | some need ↦
        after (λ _. add_cells (set_coverage c.need_key (coverage_value c) entries) cs)
          (insert_cell (coverage_cell need c) s)
  ]

  unfoldable pub delete_cells : M (Unit {0})
  delete_cells = modify λ s. record s {
    coverage_cells = filter (λ c. not (text_eq c.project_id project_id)) s.coverage_cells;
  }

  -- The stage; `shortlist` is `match_needs` of the needs.
  unfoldable pub coverage_stage :
      Corpus
      → (Option Text → Bool)
      → M (List Matched)
      → (CoverageInput → Result (LlmResult CoverageResponse))
      → (Text → LlmResult CoverageResponse → M (Unit {0}))
      → M (List CoverageEntry)
  unfolding delete_cells read_signals coverage_input add_cells
  coverage_stage corpus is_old shortlist provider record_usage = do
    delete_cells
    signals ← read_signals project_id
    m ← shortlist
    res ← lift (provider (coverage_input is_old signals need_rows m corpus))
    record_usage (codes "coverage") res
    add_cells [] res.content.classifications
