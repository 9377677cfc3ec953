-- ===== src/Rbac/Areas.antt =====
-- The permissions of a role, by areas of work.
use multi_stage_agentic_sast.Rbac.{
  Role, analyst, manager, developer, User, Permission, has_permission, require_permission,
  view_dashboard, view_repositories, view_findings, view_scan_runs, view_validation, view_proof,
  view_risk, view_approvals, view_remediation, view_benchmark, scan, deduplicate, validate, prove,
  assess_risk, start_sla, check_sla, request_approval, approve, reject, request_changes, resubmit,
  view_approval_queue, propose_remediation, apply_remediation, verify_remediation, reprepare,
  create_repository, delete_repository, run_benchmark, auditor,
}
use multi_stage_agentic_sast.Prelude.{arith, false, Bool, true, ◌≡◌, refl}
use multi_stage_agentic_sast.Prelude.Exec.{ok}

pub data Area : Type 0 where
  view intake analysis repair decision : Area

abbrev pub area : Permission → Area
area view_dashboard = view
area view_repositories = view
area view_findings = view
area view_scan_runs = view
area view_validation = view
area view_proof = view
area view_risk = view
area view_approvals = view
area view_remediation = view
area view_benchmark = view
area scan = intake
area deduplicate = analysis
area validate = analysis
area prove = analysis
area assess_risk = analysis
area start_sla = analysis
area check_sla = analysis
area request_approval = analysis
area approve = decision
area reject = decision
area request_changes = decision
area resubmit = decision
area view_approval_queue = decision
area propose_remediation = repair
area apply_remediation = repair
area verify_remediation = repair
area reprepare = repair
area create_repository = intake
area delete_repository = decision
area run_benchmark = analysis

-- Who works in which area.
abbrev pub works_in : Role → Area → Bool
works_in manager _ = true
works_in _ view = true
works_in analyst intake = true
works_in analyst analysis = true
works_in developer intake = true
works_in developer repair = true
works_in _ _ = false

for_each_role :
    (P : Role → Type 0) → P analyst → P manager → P developer → P auditor → (role : Role) → P role
for_each_role P a m d u analyst = a
for_each_role P a m d u manager = m
for_each_role P a m d u developer = d
for_each_role P a m d u auditor = u

abbrev Agrees : Permission → Role → Type 0
Agrees permission role = has_permission role permission ≡ works_in role (area permission)

agrees : (permission : Permission) (role : Role) → Agrees permission role
unfolding has_permission
agrees view_dashboard = for_each_role (Agrees view_dashboard) refl refl refl refl
agrees view_repositories = for_each_role (Agrees view_repositories) refl refl refl refl
agrees view_findings = for_each_role (Agrees view_findings) refl refl refl refl
agrees view_scan_runs = for_each_role (Agrees view_scan_runs) refl refl refl refl
agrees view_validation = for_each_role (Agrees view_validation) refl refl refl refl
agrees view_proof = for_each_role (Agrees view_proof) refl refl refl refl
agrees view_risk = for_each_role (Agrees view_risk) refl refl refl refl
agrees view_approvals = for_each_role (Agrees view_approvals) refl refl refl refl
agrees view_remediation = for_each_role (Agrees view_remediation) refl refl refl refl
agrees view_benchmark = for_each_role (Agrees view_benchmark) refl refl refl refl
agrees scan = for_each_role (Agrees scan) refl refl refl refl
agrees deduplicate = for_each_role (Agrees deduplicate) refl refl refl refl
agrees validate = for_each_role (Agrees validate) refl refl refl refl
agrees prove = for_each_role (Agrees prove) refl refl refl refl
agrees assess_risk = for_each_role (Agrees assess_risk) refl refl refl refl
agrees start_sla = for_each_role (Agrees start_sla) refl refl refl refl
agrees check_sla = for_each_role (Agrees check_sla) refl refl refl refl
agrees request_approval = for_each_role (Agrees request_approval) refl refl refl refl
agrees approve = for_each_role (Agrees approve) refl refl refl refl
agrees reject = for_each_role (Agrees reject) refl refl refl refl
agrees request_changes = for_each_role (Agrees request_changes) refl refl refl refl
agrees resubmit = for_each_role (Agrees resubmit) refl refl refl refl
agrees view_approval_queue = for_each_role (Agrees view_approval_queue) refl refl refl refl
agrees propose_remediation = for_each_role (Agrees propose_remediation) refl refl refl refl
agrees apply_remediation = for_each_role (Agrees apply_remediation) refl refl refl refl
agrees verify_remediation = for_each_role (Agrees verify_remediation) refl refl refl refl
agrees reprepare = for_each_role (Agrees reprepare) refl refl refl refl
agrees create_repository = for_each_role (Agrees create_repository) refl refl refl refl
agrees delete_repository = for_each_role (Agrees delete_repository) refl refl refl refl
agrees run_benchmark = for_each_role (Agrees run_benchmark) refl refl refl refl

-- A role has a permission exactly if it works in the permission's area: all roles view, the manager
-- has every permission and is alone in deciding approvals and deleting repositories, the analyst
-- and the developer take in code, and they are alone, beside the manager, in analysis and in repair.
pub permissions_by_area :
    (role : Role) (permission : Permission)
    → has_permission role permission ≡ works_in role (area permission)
permissions_by_area role permission = agrees permission role

decides : (role : Role) → works_in role decision ≡ true → role ≡ manager
decides role h = ground arith

-- A request for an approval decision or a deletion passes the check only for a manager, and with
-- the user unchanged.
pub decision_needs_manager :
    (permission : Permission) (user passed : User)
    → area permission ≡ decision
    → require_permission permission user ≡ ok passed
    → (user.role ≡ manager) × (passed ≡ user)
unfolding require_permission
decision_needs_manager permission user passed h done =
    ground (arith, permissions_by_area user.role permission, decides user.role)
