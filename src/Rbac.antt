-- ===== src/Rbac.antt =====
-- backend/app/auth/rbac.py, with Role and User of auth/models.py.
pub mod Areas
mod Samples
use multi_stage_agentic_sast.Prelude.{
  String, Bool, true, false, List, [], ◌∷◌, ◌++◌, map, if◌then◌else◌,
}
use multi_stage_agentic_sast.Prelude.Exec.{ok, Result, err}
use multi_stage_agentic_sast.Prelude.Dict.{contains}
use multi_stage_agentic_sast.Prelude.Datetime.{Datetime}

pub data Role : Type 0 where
  analyst manager developer auditor : Role

abbrev pub role_name : Role → String
role_name analyst = "analyst"
role_name manager = "manager"
role_name developer = "developer"
role_name auditor = "auditor"

pub record User : Type 0 where
  pub id : String
  pub username : String
  pub display_name : String
  pub password_hash : String
  pub role : Role
  pub is_active : Bool
  pub created_at : Datetime

pub data Permission : Type 0 where
  view_dashboard view_repositories view_findings view_scan_runs view_validation view_proof view_risk
        view_approvals view_remediation view_benchmark scan deduplicate validate prove assess_risk
        start_sla check_sla request_approval approve reject request_changes resubmit
        view_approval_queue propose_remediation apply_remediation verify_remediation reprepare
        create_repository delete_repository run_benchmark :
      Permission

-- The value of the member: a member is equal to its value, and hashed by it.
abbrev pub permission_value : Permission → String
permission_value view_dashboard = "view_dashboard"
permission_value view_repositories = "view_repositories"
permission_value view_findings = "view_findings"
permission_value view_scan_runs = "view_scan_runs"
permission_value view_validation = "view_validation"
permission_value view_proof = "view_proof"
permission_value view_risk = "view_risk"
permission_value view_approvals = "view_approvals"
permission_value view_remediation = "view_remediation"
permission_value view_benchmark = "view_benchmark"
permission_value scan = "scan"
permission_value deduplicate = "deduplicate"
permission_value validate = "validate"
permission_value prove = "prove"
permission_value assess_risk = "assess_risk"
permission_value start_sla = "start_sla"
permission_value check_sla = "check_sla"
permission_value request_approval = "request_approval"
permission_value approve = "approve"
permission_value reject = "reject"
permission_value request_changes = "request_changes"
permission_value resubmit = "resubmit"
permission_value view_approval_queue = "view_approval_queue"
permission_value propose_remediation = "propose_remediation"
permission_value apply_remediation = "apply_remediation"
permission_value verify_remediation = "verify_remediation"
permission_value reprepare = "reprepare"
permission_value create_repository = "create_repository"
permission_value delete_repository = "delete_repository"
permission_value run_benchmark = "run_benchmark"

abbrev pub analyst_permissions : List Permission
analyst_permissions =
    view_dashboard ∷ view_repositories ∷ view_findings ∷ view_scan_runs ∷ view_validation
    ∷ view_proof ∷ view_risk ∷ view_approvals ∷ view_remediation ∷ view_benchmark ∷ scan
    ∷ deduplicate ∷ validate ∷ prove ∷ assess_risk ∷ start_sla ∷ check_sla ∷ request_approval
    ∷ create_repository ∷ run_benchmark ∷ []

abbrev pub manager_permissions : List Permission
manager_permissions =
    analyst_permissions
    ++ approve ∷ reject ∷ request_changes ∷ resubmit ∷ view_approval_queue ∷ propose_remediation
      ∷ apply_remediation ∷ verify_remediation ∷ reprepare ∷ delete_repository ∷ []

abbrev pub developer_permissions : List Permission
developer_permissions =
    view_dashboard ∷ view_repositories ∷ view_findings ∷ view_scan_runs ∷ view_validation
    ∷ view_proof ∷ view_risk ∷ view_approvals ∷ view_remediation ∷ view_benchmark
    ∷ propose_remediation ∷ apply_remediation ∷ verify_remediation ∷ reprepare ∷ scan
    ∷ create_repository ∷ []

abbrev pub auditor_permissions : List Permission
auditor_permissions =
    view_dashboard ∷ view_repositories ∷ view_findings ∷ view_scan_runs ∷ view_validation
    ∷ view_proof ∷ view_risk ∷ view_approvals ∷ view_remediation ∷ view_benchmark ∷ []

-- ROLE_PERMISSIONS
abbrev pub role_permissions : Role → List Permission
role_permissions analyst = analyst_permissions
role_permissions manager = manager_permissions
role_permissions developer = developer_permissions
role_permissions auditor = auditor_permissions

unfoldable pub has_permission : Role → Permission → Bool
unfolding contains
has_permission role permission =
    contains (permission_value permission) (map permission_value (role_permissions role))

-- The 403 answers.
pub data AccessError : Type 0 where
  permission_denied : String → AccessError
  role_not_authorized : String → AccessError

-- The check of require_permission, for the user that the session names.
unfoldable pub require_permission : Permission → User → Result AccessError User
require_permission permission user =
    if has_permission user.role permission
    then ok user
    else err (permission_denied (permission_value permission))

-- The check of require_role.
unfoldable pub require_role : List Role → User → Result AccessError User
unfolding contains
require_role allowed_roles user =
    if contains (role_name user.role) (map role_name allowed_roles)
    then ok user
    else err (role_not_authorized (role_name user.role))
