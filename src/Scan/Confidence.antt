-- ===== src/Scan/Confidence.antt =====
-- The confidence that the scanner's rules give, in hundredths.
use mathlib.Core.List.Memᴰ
use mathlib.Core.List.{Memᴰ}
use multi_stage_agentic_sast.Prelude.{
  ◌⊎◌, ℕ, Bool-cases, List, inr, if◌then◌else◌, ap, All, String, ◌≡◌, ◌+◌, arith, inl, All-map, ◌∙◌,
}
use multi_stage_agentic_sast.Prelude.Text.{starts_with}
use multi_stage_agentic_sast.Findings.{CandidateFinding, TaintStep}
use multi_stage_agentic_sast.Scan.Rules.{taint_confidence}
use multi_stage_agentic_sast.Scan.Rule.{Python, Rule}
use multi_stage_agentic_sast.Scan.Service.{ReportEnv, default_rules, scan}
use multi_stage_agentic_sast.Scan.Engine.{CodeFile}
use multi_stage_agentic_sast.Scan.Reports.{reports_are_traced}

abbrev pub base_confidence : String → ℕ
base_confidence kind = if starts_with "request" kind then 90 else 70

taint_confidence-range :
    (path : List TaintStep) (kind : String)
    → (taint_confidence path kind ≡ base_confidence kind)
      ⊎ (taint_confidence path kind + 10 ≡ base_confidence kind)
unfolding taint_confidence
taint_confidence-range path kind = elim (Bool-cases (starts_with "request" kind)) [
  | inl y ↦ rw y (ground arith)
  | inr n ↦ rw n (ground arith)
]

default_rules-confidence :
    (py : Python) (r : Rule) → Memᴰ r (default_rules py) → r.confidence ≡ taint_confidence
default_rules-confidence py r (Memᴰ.head e) = ap (λ (q : Rule). q.confidence) e
default_rules-confidence py r (Memᴰ.tail (Memᴰ.head e)) = ap (λ (q : Rule). q.confidence) e
default_rules-confidence py r (Memᴰ.tail (Memᴰ.tail (Memᴰ.head e))) =
    ap (λ (q : Rule). q.confidence) e
default_rules-confidence py r (Memᴰ.tail (Memᴰ.tail (Memᴰ.tail (Memᴰ.head e)))) =
    ap (λ (q : Rule). q.confidence) e
default_rules-confidence py r (Memᴰ.tail (Memᴰ.tail (Memᴰ.tail (Memᴰ.tail m)))) =
    absurd (Memᴰ.not-nil m)

-- The confidence of a finding depends on where its source is: from 80 to 90 for a request, from 60
-- to 70 for a parameter.
abbrev pub IsGraded : CandidateFinding → Type 0
IsGraded f =
    (f.confidence ≡ base_confidence f.source_ref.kind)
    ⊎ (f.confidence + 10 ≡ base_confidence f.source_ref.kind)

-- With the scanner's own rules, every finding of a report has 0.9 or 0.8 for a source in a request,
-- and 0.7 or 0.6 for any other source.
pub confidence_by_source :
    (py : Python) (env : ReportEnv) (project : String) (files : List CodeFile)
    → All IsGraded (scan py env (default_rules py) project files).findings
confidence_by_source py env project files =
    All-map IsGraded
      (λ f h.
        let e =
          h.traced.scored
          ∙ ap (λ c. c f.taint_path f.source_ref.kind)
              (default_rules-confidence py h.rule h.rule_listed) in
        rw e (taint_confidence-range f.taint_path f.source_ref.kind))
      (scan py env (default_rules py) project files).findings
      (reports_are_traced py project env (default_rules py) files)
