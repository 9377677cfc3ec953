-- ===== src/Risk/Scoring.antt =====
-- backend/app/risk/scoring.py. `str.lower`, `str.upper` and the decimal print of an int are inputs.
use Prim.Native.String
pub mod Explained
pub mod Monotone
use multi_stage_agentic_sast.Verdicts.{
  false_positive, Verdict, uncertain, ProofStatus, true_positive, verified,
}
use multi_stage_agentic_sast.Prelude.Dict.{get, Dict}
use multi_stage_agentic_sast.Prelude.Int.{max_ℤ, leb_ℤ, ◌+ℤ◌, pos, ℤ, min_ℤ}
use multi_stage_agentic_sast.Prelude.{
  [], some, if◌then◌else◌, true, not, String, none, ◌-◌, List, false, ◌++◌, Option, ◌∷◌, Bool,
}
use multi_stage_agentic_sast.Findings.{CandidateFinding}
use multi_stage_agentic_sast.Risk.Models.{p2, p0, p1, Priority, p3, RiskFactor, p4}

pub record Text : Type 0 where
  pub lower : String → String
  pub upper : String → String
  pub show : ℤ → String

abbrev pub severity_weights : Dict ℤ
severity_weights =
    ("critical", pos 100)
    ∷ ("high", pos 75)
    ∷ ("medium", pos 50)
    ∷ ("low", pos 25)
    ∷ ("info", pos 5)
    ∷ []

abbrev pub priority_thresholds : List (ℤ × Priority)
priority_thresholds = (pos 90, p0) ∷ (pos 75, p1) ∷ (pos 50, p2) ∷ (pos 25, p3) ∷ (pos 0, p4) ∷ []

pub record RiskPolicy : Type 0 where
  pub weights : Dict ℤ
  pub validated_bonus : ℤ
  pub proof_bonus : ℤ
  pub proof_increases_priority : Bool
  pub thresholds : List (ℤ × Priority)

abbrev pub default_risk_policy : RiskPolicy
default_risk_policy = record {
  weights = severity_weights;
  validated_bonus = pos 10;
  proof_bonus = pos 10;
  proof_increases_priority = true;
  thresholds = priority_thresholds;
}

-- The result of one round of the scorer: the running score and the factors so far.
abbrev pub Tally : Type 0
Tally = ℤ × List RiskFactor

severity_factor : Text → String → Option ℤ → Tally
severity_factor text severity none = (
  pos 0,
  record {
    name = "severity";
    value = severity;
    points = pos 0;
    description = "severity not in the known weight table; weighted 0 (not fabricated)";
  }
      ∷ [],
)
severity_factor text severity (some weight) = (
  weight,
  record {
    name = "severity";
    value = severity;
    points = weight;
    description = String.◌++◌ "base severity weight (" (
        String.◌++◌ (text.upper severity) (String.◌++◌ " = " (String.◌++◌ (text.show weight) ")")));
  }
      ∷ [],
)

-- The factor that a verdict adds; a false positive has returned before.
validation_factor : RiskPolicy → Option Verdict → Tally → Tally
validation_factor policy (some true_positive) (score, factors) = (
  score +ℤ policy.validated_bonus,
  factors
      ++ record {
        name = "validation";
        value = "true_positive";
        points = policy.validated_bonus;
        description = "validated as a true positive (exploitable candidate)";
      }
        ∷ [],
)
validation_factor policy (some uncertain) (score, factors) = (
  score,
  factors
      ++ record {
        name = "validation";
        value = "uncertain";
        points = pos 0;
        description = "validation uncertain - not confirmed, no bonus";
      }
        ∷ [],
)
validation_factor policy _ tally = tally

proven_factor : Bool → RiskPolicy → Tally → Tally
proven_factor true policy (score, factors) = (
  score +ℤ policy.proof_bonus,
  factors
      ++ record {
        name = "proof";
        value = "verified";
        points = policy.proof_bonus;
        description = "sandboxed proof verified exploitability";
      }
        ∷ [],
)
proven_factor false policy (score, factors) = (
  score,
  factors
      ++ record {
        name = "proof";
        value = "verified";
        points = pos 0;
        description = "proof verified but policy does not increase priority";
      }
        ∷ [],
)

proof_factor : RiskPolicy → Option ProofStatus → Tally → Tally
unfolding proven_factor
proof_factor policy (some verified) tally =
    proven_factor policy.proof_increases_priority policy tally
proof_factor policy _ tally = tally

-- max(0, min(100, score))
abbrev pub clamp : ℤ → ℤ
clamp score = max_ℤ (pos 0) (min_ℤ (pos 100) score)

-- _priority_for
unfoldable pub priority_for : List (ℤ × Priority) → ℤ → Priority
priority_for [] score = p4
priority_for ((threshold, priority) ∷ rest) score =
    if leb_ℤ threshold score then priority else priority_for rest score

abbrev pub finish : RiskPolicy → Tally → ℤ × Priority × List RiskFactor
finish policy (score, factors) =
    (clamp score, priority_for policy.thresholds (clamp score), factors)

abbrev pub false_positive_factor : RiskFactor
false_positive_factor = record {
  name = "validation";
  value = "false_positive";
  points = pos 0;
  description = "LLM validation concluded the finding is a false positive; no risk assigned";
}

abbrev pub is_false_positive : Option Verdict → Bool
is_false_positive (some false_positive) = true
is_false_positive _ = false

-- The three rounds of the scorer.
unfoldable pub tally :
    Text → RiskPolicy → CandidateFinding → Option Verdict → Option ProofStatus → Tally
unfolding severity_factor validation_factor proof_factor
tally text policy finding validation proof = proof_factor policy proof (
    validation_factor policy validation
      (severity_factor text finding.severity (get (text.lower finding.severity) policy.weights)))

-- score: the verdict and the proof status are what it reads of the validation and the proof.
unfoldable pub score :
    Text
    → RiskPolicy
    → CandidateFinding
    → Option Verdict
    → Option ProofStatus
    → ℤ × Priority × List RiskFactor
score text policy finding validation proof =
    if is_false_positive validation
    then (pos 0, p4, false_positive_factor ∷ [])
    else finish policy (tally text policy finding validation proof)
