-- ===== src/Llm/Lexicons.antt =====
-- legacy/packages/llm/src/heuristics.ts: the lexicons. Arabic terms are given by their code units.
use content_gap.Prelude.{List, [], ◌∷◌}
use content_gap.Prelude.Text.{Text, codes}
use content_gap.Shared.Enums.{SignalType, JourneyStage}

pub record Lexicon : Type 0 where
  pub type : SignalType
  pub terms : List Text

pub record StageTerms : Type 0 where
  pub stage : JourneyStage
  pub terms : List Text

abbrev pub signal_lexicons : List Lexicon
signal_lexicons =
    record {
      type = SignalType.objection;
      terms =
          codes "too expensive"
          ∷ codes "expensive"
          ∷ codes "price"
          ∷ codes "cost too much"
          ∷ codes "afford"
          ∷ (0x63a ∷ 0x627 ∷ 0x644 ∷ 0x64a ∷ [])
          ∷ (0x63a ∷ 0x627 ∷ 0x644 ∷ 0x64a ∷ 0x629 ∷ [])
          ∷ (0x633 ∷ 0x639 ∷ 0x631 ∷ [])
          ∷ (0x627 ∷ 0x644 ∷ 0x62a ∷ 0x643 ∷ 0x644 ∷ 0x641 ∷ 0x629 ∷ [])
          ∷ (0x645 ∷ 0x634 ∷ b' ' ∷ 0x642 ∷ 0x627 ∷ 0x62f ∷ 0x631 ∷ [])
          ∷ codes "complicated"
          ∷ codes "too complex"
          ∷ codes "hard to"
          ∷ (0x645 ∷ 0x639 ∷ 0x642 ∷ 0x62f ∷ [])
          ∷ (0x635 ∷ 0x639 ∷ 0x628 ∷ [])
          ∷ codes "risky"
          ∷ codes "risk"
          ∷ (0x645 ∷ 0x62e ∷ 0x627 ∷ 0x637 ∷ 0x631 ∷ 0x629 ∷ [])
          ∷ [];
    }
    ∷ record {
      type = SignalType.proof;
      terms =
          codes "case study"
          ∷ codes "results"
          ∷ codes "we helped"
          ∷ codes "increased by"
          ∷ codes "roi"
          ∷ codes "testimonial"
          ∷ codes "before and after"
          ∷ (0x62f ∷ 0x631 ∷ 0x627 ∷ 0x633 ∷ 0x629 ∷ b' ' ∷ 0x62d ∷ 0x627 ∷ 0x644 ∷ 0x629 ∷ [])
          ∷ (0x646 ∷ 0x62a ∷ 0x627 ∷ 0x626 ∷ 0x62c ∷ [])
          ∷ (0x632 ∷ 0x627 ∷ 0x62f ∷ 0x62a ∷ [])
          ∷ (0x62d ∷ 0x642 ∷ 0x642 ∷ 0x646 ∷ 0x627 ∷ [])
          ∷ (0x62f ∷ 0x644 ∷ 0x64a ∷ 0x644 ∷ [])
          ∷ codes "step by step"
          ∷ (0x62e ∷ 0x637 ∷ 0x648 ∷ 0x629 ∷ b' ' ∷ 0x628 ∷ 0x62e ∷ 0x637 ∷ 0x648 ∷ 0x629 ∷ [])
          ∷ [];
    }
    ∷ record {
      type = SignalType.desired_outcome;
      terms =
          codes "i want"
          ∷ codes "we need"
          ∷ codes "goal is"
          ∷ codes "hoping to"
          ∷ (0x646 ∷ 0x631 ∷ 0x64a ∷ 0x62f ∷ [])
          ∷ (0x639 ∷ 0x627 ∷ 0x64a ∷ 0x632 ∷ [])
          ∷ (0x646 ∷ 0x62d ∷ 0x62a ∷ 0x627 ∷ 0x62c ∷ [])
          ∷ (0x647 ∷ 0x62f ∷ 0x641 ∷ 0x646 ∷ 0x627 ∷ [])
          ∷ (0x623 ∷ 0x62a ∷ 0x645 ∷ 0x646 ∷ 0x649 ∷ [])
          ∷ [];
    }
    ∷ record {
      type = SignalType.decision_criterion;
      terms =
          codes "must have"
          ∷ codes "requirement"
          ∷ codes "we need it to"
          ∷ codes "criteria"
          ∷ (0x644 ∷ 0x627 ∷ 0x632 ∷ 0x645 ∷ [])
          ∷ (0x634 ∷ 0x631 ∷ 0x637 ∷ [])
          ∷ (0x645 ∷ 0x62a ∷ 0x637 ∷ 0x644 ∷ 0x628 ∷ [])
          ∷ (0x645 ∷ 0x639 ∷ 0x64a ∷ 0x627 ∷ 0x631 ∷ [])
          ∷ [];
    }
    ∷ record {
      type = SignalType.pain;
      terms =
          codes "struggle"
          ∷ codes "frustrat"
          ∷ codes "waste"
          ∷ codes "problem"
          ∷ codes "pain"
          ∷ (0x645 ∷ 0x634 ∷ 0x643 ∷ 0x644 ∷ 0x629 ∷ [])
          ∷ (0x645 ∷ 0x639 ∷ 0x627 ∷ 0x646 ∷ 0x627 ∷ 0x629 ∷ [])
          ∷ (0x628 ∷ 0x646 ∷ 0x636 ∷ 0x64a ∷ 0x639 ∷ [])
          ∷ (0x62a ∷ 0x639 ∷ 0x628 ∷ [])
          ∷ [];
    }
    ∷ record {
      type = SignalType.cta;
      terms =
          codes "book a call"
          ∷ codes "sign up"
          ∷ codes "get started"
          ∷ codes "contact us"
          ∷ (0x627 ∷ 0x62d ∷ 0x62c ∷ 0x632 ∷ [])
          ∷ (0x633 ∷ 0x62c ∷ 0x644 ∷ [])
          ∷ (0x62a ∷ 0x648 ∷ 0x627 ∷ 0x635 ∷ 0x644 ∷ [])
          ∷ (0x627 ∷ 0x628 ∷ 0x62f ∷ 0x623 ∷ b' ' ∷ 0x627 ∷ 0x644 ∷ 0x622 ∷ 0x646 ∷ [])
          ∷ [];
    }
    ∷ record {
      type = SignalType.claim;
      terms =
          codes "the best"
          ∷ codes "guaranteed"
          ∷ codes "#1"
          ∷ codes "number one"
          ∷ (0x627 ∷ 0x644 ∷ 0x623 ∷ 0x641 ∷ 0x636 ∷ 0x644 ∷ [])
          ∷ (0x645 ∷ 0x636 ∷ 0x645 ∷ 0x648 ∷ 0x646 ∷ [])
          ∷ (0x627 ∷ 0x644 ∷ 0x623 ∷ 0x648 ∷ 0x644 ∷ [])
          ∷ [];
    }
    ∷ record {
      type = SignalType.alternative;
      terms =
          codes "instead of"
          ∷ codes "compared to"
          ∷ codes "vs"
          ∷ codes "alternative"
          ∷ (0x628 ∷ 0x62f ∷ 0x644 ∷ 0x627 ∷ b' ' ∷ 0x645 ∷ 0x646 ∷ [])
          ∷ (0x645 ∷ 0x642 ∷ 0x627 ∷ 0x631 ∷ 0x646 ∷ 0x629 ∷ [])
          ∷ (0x627 ∷ 0x644 ∷ 0x628 ∷ 0x62f ∷ 0x64a ∷ 0x644 ∷ [])
          ∷ [];
    }
    ∷ []

abbrev pub stage_lexicon : List StageTerms
stage_lexicon =
    record {
      stage = JourneyStage.trigger;
      terms =
          codes "just realized"
          ∷ codes "suddenly"
          ∷ codes "started noticing"
          ∷ (0x628 ∷ 0x62f ∷ 0x623 ∷ 0x62a ∷ b' ' ∷ 0x623 ∷ 0x644 ∷ 0x627 ∷ 0x62d ∷ 0x638 ∷ [])
          ∷ (0x641 ∷ 0x62c ∷ 0x623 ∷ 0x629 ∷ [])
          ∷ [];
    }
    ∷ record {
      stage = JourneyStage.explore;
      terms =
          codes "how do i"
          ∷ codes "what is"
          ∷ codes "learn about"
          ∷ codes "guide"
          ∷ (0x645 ∷ 0x627 ∷ b' ' ∷ 0x647 ∷ 0x648 ∷ [])
          ∷ (0x643 ∷ 0x64a ∷ 0x641 ∷ [])
          ∷ (0x62f ∷ 0x644 ∷ 0x64a ∷ 0x644 ∷ [])
          ∷ [];
    }
    ∷ record {
      stage = JourneyStage.evaluate;
      terms =
          codes "compare"
          ∷ codes "vs"
          ∷ codes "review"
          ∷ codes "is it worth"
          ∷ codes "pricing"
          ∷ (0x645 ∷ 0x642 ∷ 0x627 ∷ 0x631 ∷ 0x646 ∷ 0x629 ∷ [])
          ∷ (0x62a ∷ 0x642 ∷ 0x64a ∷ 0x64a ∷ 0x645 ∷ [])
          ∷ (0x64a ∷ 0x633 ∷ 0x62a ∷ 0x627 ∷ 0x647 ∷ 0x644 ∷ [])
          ∷ [];
    }
    ∷ record {
      stage = JourneyStage.decide;
      terms =
          codes "ready to buy"
          ∷ codes "sign the"
          ∷ codes "purchase"
          ∷ codes "book"
          ∷ (0x62c ∷ 0x627 ∷ 0x647 ∷ 0x632 ∷ [])
          ∷ (0x623 ∷ 0x634 ∷ 0x62a ∷ 0x631 ∷ 0x64a ∷ [])
          ∷ (0x627 ∷ 0x62d ∷ 0x62c ∷ 0x632 ∷ [])
          ∷ [];
    }
    ∷ record {
      stage = JourneyStage.experience;
      terms =
          codes "onboarding"
          ∷ codes "getting started"
          ∷ codes "setup"
          ∷ (0x627 ∷ 0x644 ∷ 0x62a ∷ 0x641 ∷ 0x639 ∷ 0x64a ∷ 0x644 ∷ [])
          ∷ (0x627 ∷ 0x644 ∷ 0x628 ∷ 0x62f ∷ 0x627 ∷ 0x64a ∷ 0x629 ∷ [])
          ∷ [];
    }
    ∷ record {
      stage = JourneyStage.repeat;
      terms =
          codes "renew"
          ∷ codes "again"
          ∷ codes "loyal"
          ∷ (0x627 ∷ 0x644 ∷ 0x62a ∷ 0x62c ∷ 0x62f ∷ 0x64a ∷ 0x62f ∷ [])
          ∷ (0x645 ∷ 0x631 ∷ 0x629 ∷ b' ' ∷ 0x623 ∷ 0x62e ∷ 0x631 ∷ 0x649 ∷ [])
          ∷ [];
    }
    ∷ []
