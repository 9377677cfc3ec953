-- ===== src/Approval/Outcomes.antt =====
-- What the two operations of the service do to the store, branch by branch.
use multi_stage_agentic_sast.Prelude.{
  String, ◌≡◌, refl, ◌⊎◌, inl, inr, Bool, true, false, Option, none, some, Bool-cases, Option-cases,
  not, ◌&&◌,
}
use multi_stage_agentic_sast.Prelude.Exec.{Result, ok, err, ◌>>=◌}
use multi_stage_agentic_sast.Prelude.Datetime.{Datetime}
use multi_stage_agentic_sast.Verdicts.{
  true_positive, verified, false_positive, uncertain, not_verified, blocked, error, Verdict,
  ProofStatus,
}
use multi_stage_agentic_sast.Approval.Models.{
  ApprovalStatus, ApprovalAction, ApprovalRequest, ApprovalPolicy,
}
use multi_stage_agentic_sast.Approval.Store.{
  ApprovalStore, get_request, find_for_finding, find_active,
}
use multi_stage_agentic_sast.Approval.Service.{
  ApprovalError, Env, Gates, allowed_transition, is_active, is_terminal, ensure_aware_utc, or_now,
  check_eligibility, check_terminal, new_request, new_event, commit, request_approval,
  unknown_request, not_allowed, check_validation, check_proof, gate, terminal_exists,
}
use multi_stage_agentic_sast.Approval.Moves.{updated_request, transition_event, transition}

Result-cases {ℓ κ} :
    {E : Type ℓ} {A : Type κ} (d : Result E A) → ((a : A) × (d ≡ ok a)) ⊎ ((e : E) × (d ≡ err e))
Result-cases (ok a) = inl (a, refl)
Result-cases (err e) = inr (e, refl)

-- A successful step of the state machine.
pub record Moves (env : Env) (id : String) (to : ApprovalStatus) (actor : String)
    (reason : Option String) (at : Option Datetime) (s : ApprovalStore) (r : ApprovalRequest)
    (now : Datetime) : Type 0 where
  pub found : get_request id s ≡ some r
  pub allowed : allowed_transition r.status to ≡ true
  pub dated : ensure_aware_utc (or_now env at) "reviewed_at" ≡ ok now
  pub committed :
      transition env id to actor reason at s
      ≡ commit
          (updated_request r to actor reason now)
          (transition_event env r to actor reason now)
          s

module _ (env : Env) (id : String) (to : ApprovalStatus) (actor : String) (reason : Option String)
    (at : Option Datetime) (s : ApprovalStore) where
  pub transition_cases :
      ((e : ApprovalError) × (transition env id to actor reason at s ≡ (err e, s)))
      ⊎ ((r : ApprovalRequest) × (now : Datetime) × Moves env id to actor reason at s r now)
  unfolding transition ◌>>=◌
  transition_cases = elim (Option-cases (get_request id s)) [
    | inl missing ↦ inl (unknown_request id, rw missing)
    | inr (r, found) ↦ elim (Bool-cases (allowed_transition r.status to)) [
      | inl yes' ↦ elim (Result-cases (ensure_aware_utc (or_now env at) "reviewed_at")) [
        | inl (now, d) ↦ inr (
          r,
          now,
          record { found = found; allowed = yes'; dated = d; committed = rw (found, yes', d) },
        )
        | inr (e, d) ↦ inl (e, rw (found, yes', d))
      ]
      | inr no' ↦ inl (not_allowed r.status to, rw (found, no'))
    ]
  ]

-- The gates that a new request has passed, as the policy sets them.
pub record Passes (policy : ApprovalPolicy) (gates : Gates) (finding_id : String) : Type 0 where
  pub validated :
      policy.require_validation ≡ true → gates.verdict_of finding_id ≡ some true_positive
  pub proven : policy.require_proof ≡ true → gates.proof_of finding_id ≡ some verified

-- A successful creation.
pub record Creates (policy : ApprovalPolicy) (gates : Gates) (env : Env) (finding_id : String)
    (action : ApprovalAction) (by : String) (at : Option Datetime) (run : Option String)
    (s : ApprovalStore) (now : Datetime) : Type 0 where
  pub none_active : find_active finding_id action is_active s ≡ none
  pub passes : Passes policy gates finding_id
  pub committed : request_approval policy gates env finding_id action by at run s ≡ (
      let r = new_request env now finding_id action by run in commit r (new_event env now r by) s)

gate_cases :
    (b : Bool) (r : Result ApprovalError Unit) (s : ApprovalStore)
    → ((e : ApprovalError) × (gate b r s ≡ (err e, s)))
      ⊎ ((gate b r s ≡ (ok tt, s)) × (b ≡ true → r ≡ ok tt))
unfolding ◌>>=◌
gate_cases false r s = inr (refl, λ h. cc)
gate_cases true (ok u) s = inr (refl, λ h. refl)
gate_cases true (err e) s = inl (e, refl)

check_validation_ok :
    (f : String) (o : Option Verdict) → check_validation f o ≡ ok tt → o ≡ some true_positive
check_validation_ok f none h = cc
check_validation_ok f (some true_positive) h = refl
check_validation_ok f (some false_positive) h = cc
check_validation_ok f (some uncertain) h = cc

check_proof_ok : (f : String) (o : Option ProofStatus) → check_proof f o ≡ ok tt → o ≡ some verified
check_proof_ok f none h = cc
check_proof_ok f (some verified) h = refl
check_proof_ok f (some not_verified) h = cc
check_proof_ok f (some blocked) h = cc
check_proof_ok f (some error) h = cc

check_eligibility_cases :
    (policy : ApprovalPolicy) (gates : Gates) (finding_id : String) (s : ApprovalStore)
    → ((e : ApprovalError) × (check_eligibility policy gates finding_id s ≡ (err e, s)))
      ⊎ ((check_eligibility policy gates finding_id s ≡ (ok tt, s))
          × Passes policy gates finding_id)
unfolding check_eligibility ◌>>=◌
check_eligibility_cases policy gates f s =
    elim (gate_cases policy.require_validation (check_validation f (gates.verdict_of f)) s) [
      | inl (e, p) ↦ inl (e, rw p)
      | inr (p, v) ↦ elim (gate_cases policy.require_proof (check_proof f (gates.proof_of f)) s) [
        | inl (e, q) ↦ inl (e, rw (p, q))
        | inr (q, w) ↦ inr (
          rw (p, q),
          record {
            validated = λ h. check_validation_ok f (gates.verdict_of f) (v h);
            proven = λ h. check_proof_ok f (gates.proof_of f) (w h);
          },
        )
      ]
    ]

check_terminal_cases :
    (policy : ApprovalPolicy) (finding_id : String) (o : Option ApprovalRequest) (s : ApprovalStore)
    → ((e : ApprovalError) × (check_terminal policy finding_id o s ≡ (err e, s)))
      ⊎ (check_terminal policy finding_id o s ≡ (ok tt, s))
unfolding ◌>>=◌
check_terminal_cases policy finding_id none s = inr refl
check_terminal_cases policy finding_id (some r) s =
    elim (Bool-cases (is_terminal r.status && not policy.allow_re_request_after_terminal)) [
      | inl stop ↦ inl (terminal_exists finding_id r.status, rw stop)
      | inr go ↦ inr (rw go)
    ]

module _ (policy : ApprovalPolicy) (gates : Gates) (env : Env) (finding_id : String)
    (action : ApprovalAction) (by : String) (at : Option Datetime) (run : Option String)
    (s : ApprovalStore) where
  pub request_approval_cases :
      ((e : ApprovalError) × (request_approval policy gates env finding_id action by at run s
          ≡ (err e, s)))
      ⊎ ((r : ApprovalRequest) × (find_active finding_id action is_active s ≡ some r)
          × (request_approval policy gates env finding_id action by at run s ≡ (ok r, s)))
      ⊎ ((now : Datetime) × Creates policy gates env finding_id action by at run s now)
  unfolding request_approval ◌>>=◌
  request_approval_cases = elim (Option-cases (find_active finding_id action is_active s)) [
    | inr (r, active) ↦ inr (inl (r, active, rw active))
    | inl fresh ↦ elim (check_terminal_cases policy finding_id (find_for_finding finding_id s) s) [
      | inl (e, p) ↦ inl (e, rw (fresh, p))
      | inr p ↦ elim (check_eligibility_cases policy gates finding_id s) [
        | inl (e, q) ↦ inl (e, rw (fresh, p, q))
        | inr (q, passes) ↦ elim (Result-cases (ensure_aware_utc (or_now env at) "requested_at")) [
          | inl (now, d) ↦ inr (
              inr (
                now,
                record { none_active = fresh; passes = passes; committed = rw (fresh, p, q, d) },
              ))
          | inr (e, d) ↦ inl (e, rw (fresh, p, q, d))
        ]
      ]
    ]
  ]
