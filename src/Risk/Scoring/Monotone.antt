-- ===== src/Risk/Scoring/Monotone.antt =====
-- Confirmation never lowers a score or a priority.
use multi_stage_agentic_sast.Risk.Models.{Priority, urgency}
use multi_stage_agentic_sast.Risk.Scoring.{
  priority_for, clamp, Tally, RiskPolicy, score, Text, proof_factor, validation_factor,
  is_false_positive, tally, severity_factor,
}
use multi_stage_agentic_sast.Prelude.{
  ◌≤◌, [], ◌∷◌, arith, List, Option, ◌⊎◌, false, ◌≡◌, some, inr, inl,
}
use multi_stage_agentic_sast.Prelude.Int.{pos, ℤ, ◌≤ℤ◌, ◌+ℤ◌}
use multi_stage_agentic_sast.Verdicts.{verified, true_positive, Verdict, ProofStatus}
use multi_stage_agentic_sast.Findings.{CandidateFinding}
use multi_stage_agentic_sast.Prelude.Dict.{get}

pub clamp_mono : (a b : ℤ) → a ≤ℤ b → clamp a ≤ℤ clamp b
clamp_mono a b h = ground arith

pub clamp_bounds : (a : ℤ) → (pos 0 ≤ℤ clamp a) × (clamp a ≤ℤ pos 100)
clamp_bounds a = ground arith

-- The thresholds stand in order of urgency, the most urgent first, and none is below P4.
abbrev pub IsDescending : List (ℤ × Priority) → Type 0
IsDescending [] = Unit
IsDescending ((t, p) ∷ []) = Unit
IsDescending ((t, p) ∷ (u, q) ∷ rest) = (urgency q ≤ urgency p) × IsDescending ((u, q) ∷ rest)

priority_for-le :
    (t : ℤ) (p : Priority) (rest : List (ℤ × Priority)) (s : ℤ)
    → IsDescending ((t, p) ∷ rest)
    → urgency (priority_for rest s) ≤ urgency p
unfolding priority_for
priority_for-le t p [] s d = omega arith
priority_for-le t p ((u, q) ∷ rest) s d = ground (arith, priority_for-le u q rest s)

pub priority_for_mono :
    (l : List (ℤ × Priority)) (a b : ℤ)
    → IsDescending l
    → a ≤ℤ b
    → urgency (priority_for l a) ≤ urgency (priority_for l b)
unfolding priority_for
priority_for_mono [] a b d h = omega arith
priority_for_mono ((t, p) ∷ []) a b d h = ground arith
priority_for_mono ((t, p) ∷ (u, q) ∷ rest) a b d h =
    ground
      (arith, priority_for_mono ((u, q) ∷ rest) a b d.1 h, priority_for-le t p ((u, q) ∷ rest) a d)

-- More evidence: a verdict that is open or absent becomes a true positive, an absent or failed
-- proof becomes a verified one.
pub record Confirms (v v' : Option Verdict) (p p' : Option ProofStatus) : Type 0 where
  pub not_refuted : is_false_positive v ≡ false
  pub verdict : (v' ≡ v) ⊎ (v' ≡ some true_positive)
  pub proof : (p' ≡ p) ⊎ (p' ≡ some verified)

abbrev pub IsReward : RiskPolicy → Type 0
IsReward policy = (pos 0 ≤ℤ policy.validated_bonus) × (pos 0 ≤ℤ policy.proof_bonus)

validation_factor_mono :
    (policy : RiskPolicy) (v v' : Option Verdict) (t : Tally)
    → IsReward policy
    → is_false_positive v ≡ false
    → (v' ≡ v) ⊎ (v' ≡ some true_positive)
    → (validation_factor policy v t).0 ≤ℤ (validation_factor policy v' t).0
unfolding validation_factor ◌+ℤ◌
validation_factor_mono policy v v' (s, fs) r n h = ground arith

proof_factor_mono :
    (policy : RiskPolicy) (p p' : Option ProofStatus) (t t' : Tally)
    → IsReward policy
    → (p' ≡ p) ⊎ (p' ≡ some verified)
    → t.0 ≤ℤ t'.0
    → (proof_factor policy p t).0 ≤ℤ (proof_factor policy p' t').0
unfolding proof_factor ◌+ℤ◌
proof_factor_mono policy p p' (s, fs) (s', fs') r h le = ground arith

tally_mono :
    (text : Text) (policy : RiskPolicy) (finding : CandidateFinding) (v v' : Option Verdict)
    (p p' : Option ProofStatus)
    → IsReward policy
    → Confirms v v' p p'
    → (tally text policy finding v p).0 ≤ℤ (tally text policy finding v' p').0
unfolding tally
tally_mono text policy finding v v' p p' r c =
    let base : Tally =
      severity_factor text finding.severity (get (text.lower finding.severity) policy.weights) in
    proof_factor_mono policy p p' (validation_factor policy v base)
      (validation_factor policy v' base) r c.proof
      (validation_factor_mono policy v v' base r c.not_refuted c.verdict)

still_not_refuted :
    (v v' : Option Verdict)
    → is_false_positive v ≡ false
    → (v' ≡ v) ⊎ (v' ≡ some true_positive)
    → is_false_positive v' ≡ false
still_not_refuted v v' n (inl e) = rw e n
still_not_refuted v v' n (inr e) = rw e

-- Under a policy with non-negative bonuses and thresholds in order of urgency, for a finding that is
-- no false positive: a verdict that stays or becomes true positive, and a proof that stays or
-- becomes verified, lower neither its risk score nor the urgency of its priority; and a score lies
-- in 0..100.
pub confirmation_never_lowers :
    (text : Text) (policy : RiskPolicy) (finding : CandidateFinding) (v v' : Option Verdict)
    (p p' : Option ProofStatus)
    → IsReward policy
    → IsDescending policy.thresholds
    → Confirms v v' p p'
    → let (s, priority, _) = score text policy finding v p in
      let (s', priority', _) = score text policy finding v' p' in
      (s ≤ℤ s') × (urgency priority ≤ urgency priority') × (pos 0 ≤ℤ s) × (s' ≤ℤ pos 100)
unfolding score
confirmation_never_lowers text policy finding v v' p p' r d c =
    let le = tally_mono text policy finding v v' p p' r c in
    rw (c.not_refuted, still_not_refuted v v' c.not_refuted c.verdict)
      (
        clamp_mono (tally text policy finding v p).0 (tally text policy finding v' p').0 le,
        priority_for_mono policy.thresholds (clamp (tally text policy finding v p).0)
            (clamp (tally text policy finding v' p').0) d
            (clamp_mono (tally text policy finding v p).0 (tally text policy finding v' p').0 le),
        (clamp_bounds (tally text policy finding v p).0).0,
        (clamp_bounds (tally text policy finding v' p').0).1,
      )
