-- ===== src/Risk/Scoring/Explained.antt =====
-- What a score says: it is the clamped sum of the factors that explain it.
use multi_stage_agentic_sast.Prelude.{
  inr, ◌++◌, none, ◌≡◌, true, inl, Option, false, refl, [], Bool-cases, String, Bool, some, ◌∷◌,
  List, ap, All, ◌⊎◌, if◌then◌else◌,
}
use multi_stage_agentic_sast.Risk.Scoring.{
  RiskPolicy, Tally, score, Text, clamp, priority_for, severity_factor, proof_factor, proven_factor,
  is_false_positive, validation_factor, tally, get,
}
use multi_stage_agentic_sast.Verdicts.{
  false_positive, not_verified, ProofStatus, uncertain, Verdict, error, true_positive, verified,
  blocked,
}
use multi_stage_agentic_sast.Prelude.Int.{zero_+ℤ, +ℤ_zero, ◌+ℤ◌, pos, ℤ, +ℤ_assoc, leb_ℤ}
use multi_stage_agentic_sast.Risk.Models.{RiskFactor, p4, Priority}
use multi_stage_agentic_sast.Findings.{CandidateFinding}

abbrev pub total : List RiskFactor → ℤ
total [] = pos 0
total (f ∷ fs) = f.points +ℤ total fs

total-snoc : (fs : List RiskFactor) (f : RiskFactor) → total (fs ++ f ∷ []) ≡ total fs +ℤ f.points
total-snoc [] f = rw (+ℤ_zero, zero_+ℤ)
total-snoc (g ∷ fs) f = rw (total-snoc fs f, +ℤ_assoc)

abbrev IsExplained : Tally → Type 0
IsExplained t = t.0 ≡ total t.1

severity_factor-IsExplained :
    (text : Text) (s : String) (w : Option ℤ) → IsExplained (severity_factor text s w)
unfolding severity_factor
severity_factor-IsExplained text s none = rw +ℤ_zero
severity_factor-IsExplained text s (some w) = rw +ℤ_zero

add-IsExplained :
    (s : ℤ) (fs : List RiskFactor) (f : RiskFactor)
    → s ≡ total fs
    → s +ℤ f.points ≡ total (fs ++ f ∷ [])
add-IsExplained s fs f h = rw (total-snoc, h)

keep-IsExplained :
    (s : ℤ) (fs : List RiskFactor) (f : RiskFactor)
    → f.points ≡ pos 0
    → s ≡ total fs
    → s ≡ total (fs ++ f ∷ [])
keep-IsExplained s fs f z h = rw (total-snoc, z, +ℤ_zero, h)

validation_factor-IsExplained :
    (policy : RiskPolicy) (v : Option Verdict) (t : Tally)
    → IsExplained t
    → IsExplained (validation_factor policy v t)
unfolding validation_factor
validation_factor-IsExplained policy (some true_positive) (s, fs) h = add-IsExplained s fs _ h
validation_factor-IsExplained policy (some uncertain) (s, fs) h = keep-IsExplained s fs _ refl h
validation_factor-IsExplained policy (some false_positive) t h = h
validation_factor-IsExplained policy none t h = h

proven_factor-IsExplained :
    (b : Bool) (policy : RiskPolicy) (t : Tally)
    → IsExplained t
    → IsExplained (proven_factor b policy t)
unfolding proven_factor
proven_factor-IsExplained true policy (s, fs) h = add-IsExplained s fs _ h
proven_factor-IsExplained false policy (s, fs) h = keep-IsExplained s fs _ refl h

proof_factor-IsExplained :
    (policy : RiskPolicy) (p : Option ProofStatus) (t : Tally)
    → IsExplained t
    → IsExplained (proof_factor policy p t)
unfolding proof_factor
proof_factor-IsExplained policy (some verified) t h =
    proven_factor-IsExplained policy.proof_increases_priority policy t h
proof_factor-IsExplained policy (some not_verified) t h = h
proof_factor-IsExplained policy (some blocked) t h = h
proof_factor-IsExplained policy (some error) t h = h
proof_factor-IsExplained policy none t h = h

tally-IsExplained :
    (text : Text) (policy : RiskPolicy) (finding : CandidateFinding) (v : Option Verdict)
    (p : Option ProofStatus)
    → IsExplained (tally text policy finding v p)
unfolding tally
tally-IsExplained text policy finding v p =
    let w : Option ℤ = get (text.lower finding.severity) policy.weights in
    let base : Tally = severity_factor text finding.severity w in
    proof_factor-IsExplained policy p (validation_factor policy v base) (
      validation_factor-IsExplained policy v base
        (severity_factor-IsExplained text finding.severity w))

-- The score is below the threshold.
abbrev pub IsMissed : ℤ → ℤ × Priority → Type 0
IsMissed s t = leb_ℤ t.0 s ≡ false

-- A threshold with this priority that the score reaches, while it is below all before it.
pub record IsReached (s : ℤ) (thresholds : List (ℤ × Priority)) (priority : Priority) : Type 0 where
  pub before : List (ℤ × Priority)
  pub threshold : ℤ
  pub after : List (ℤ × Priority)
  pub split : thresholds ≡ before ++ (threshold, priority) ∷ after
  pub missed : All (IsMissed s) before
  pub reached : leb_ℤ threshold s ≡ true

-- P4 stands for a score below all thresholds.
abbrev pub IsPriority : ℤ → List (ℤ × Priority) → Priority → Type 0
IsPriority s thresholds priority =
    IsReached s thresholds priority ⊎ (All (IsMissed s) thresholds × (priority ≡ p4))

-- One threshold more, in front.
IsPriority-cons :
    (s t : ℤ) (p priority : Priority) (ts : List (ℤ × Priority)) (b : Bool)
    → leb_ℤ t s ≡ b
    → IsPriority s ts priority
    → IsPriority s ((t, p) ∷ ts) (if b then p else priority)
IsPriority-cons s t p priority ts true h g =
    inl (record { before = []; threshold = t; after = ts; split = refl; missed = tt; reached = h })
IsPriority-cons s t p priority ts false h (inl r) = inl (record {
  before = (t, p) ∷ r.before;
  threshold = r.threshold;
  after = r.after;
  split = ap (λ xs. (t, p) ∷ xs) r.split;
  missed = (h, r.missed);
  reached = r.reached;
})
IsPriority-cons s t p priority ts false h (inr (all, same)) = inr ((h, all), same)

priority_for-IsPriority : (s : ℤ) (ts : List (ℤ × Priority)) → IsPriority s ts (priority_for ts s)
unfolding priority_for
priority_for-IsPriority s [] = inr (tt, refl)
priority_for-IsPriority s ((t, p) ∷ ts) =
    IsPriority-cons s t p (priority_for ts s) ts (leb_ℤ t s) refl (priority_for-IsPriority s ts)

false_positive_lem : (v : Option Verdict) → is_false_positive v ≡ true → v ≡ some false_positive
false_positive_lem (some false_positive) h = refl
false_positive_lem (some true_positive) h = absurd (cc h)
false_positive_lem (some uncertain) h = absurd (cc h)
false_positive_lem none h = absurd (cc h)

-- The risk score is the sum of the points of the reported factors, clamped to 0..100. A false
-- positive scores 0 with priority P4. Any other finding has the priority of the first of the
-- policy's thresholds that its score reaches, or P4 when it is below all of them.
pub score_explained :
    (text : Text) (policy : RiskPolicy) (finding : CandidateFinding) (v : Option Verdict)
    (p : Option ProofStatus)
    → let (s, priority, factors) = score text policy finding v p in
      (s ≡ clamp (total factors))
      × (((v ≡ some false_positive) × (s ≡ pos 0) × (priority ≡ p4))
          ⊎ ((is_false_positive v ≡ false) × IsPriority s policy.thresholds priority))
unfolding score
score_explained text policy finding v p = elim (Bool-cases (is_false_positive v)) [
  | inl fp ↦ rw fp (rw +ℤ_zero, inl (false_positive_lem v fp, refl, refl))
  | inr tp ↦ rw tp (
    ap clamp (tally-IsExplained text policy finding v p),
    inr (refl, priority_for-IsPriority _ policy.thresholds),
  )
]
