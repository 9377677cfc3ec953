-- ===== src/Remediation/Guarded.antt =====
-- What has to hold before source code is changed, and what a verification says.
use multi_stage_agentic_sast.Remediation.Service.{
  RemediationError, require_approved_approval, Surroundings, check_approval, or_fail, no_approval,
  is_remediation, is_approved, target_path, wrong_action, Project, outside_workspace, check, World,
  not_approved, escapes_repository, not_confirmed, no_proposal, unreadable, located, located_in,
  project_for_finding, propose, Outcome, store_result, proposal_for, read_at, read_text,
}
use multi_stage_agentic_sast.Approval.Models.{ApprovalRequest}
use multi_stage_agentic_sast.Prelude.{
  String, refl, ◌≡◌, none, true, Option, some, sym, ◌∙◌, Bool, false, if◌then◌else◌, subst, ap, inr,
  inl, ◌⊎◌,
}
use multi_stage_agentic_sast.Prelude.Exec.{and_then-ok, ok, Result, err, ok-injective}
use multi_stage_agentic_sast.Approval.Store.{find_for_finding}
use multi_stage_agentic_sast.Prelude.Dict.{get, Dict, set_item}
use multi_stage_agentic_sast.Remediation.{
  RemediationStatus, RemediationRecord, RemediationProposal, get_record, apply_proposal, PatchError,
}
use multi_stage_agentic_sast.Remediation.Actions.{
  Ready, ready_for, ready_with, verify, gate, finish_apply, ready_gated, ready_record_for,
  approved_and_confirmed, apply, apply_ready, ready_at, verification_for, check_status,
  with_proposal, check_confirmed,
}

-- The latest approval request of the finding approves its remediation.
pub record IsAuthorized (e : Surroundings) (finding_id : String) : Type 0 where
  pub request : ApprovalRequest
  pub latest : find_for_finding finding_id e.approvals ≡ some request
  pub for_remediation : is_remediation request.action ≡ true
  pub is_granted : is_approved request.status ≡ true

guard-ok :
    {A : Type 0} (b : Bool) (r : Result RemediationError A) (x : RemediationError) (a : A)
    → (if b then r else err x) ≡ ok a
    → (b ≡ true) × (r ≡ ok a)
guard-ok true r x a h = (refl, h)
guard-ok false r x a h = absurd (cc h)

pub check-ok : (x : RemediationError) (b c : Bool) → check x b ≡ ok c → b ≡ true
check-ok x true c h = refl
check-ok x false c h = absurd (cc h)

check_approval-ok :
    (a b : ApprovalRequest)
    → check_approval a ≡ ok b
    → (is_remediation a.action ≡ true) × (is_approved a.status ≡ true)
check_approval-ok a b h =
    let outer = guard-ok (is_remediation a.action) _ wrong_action b h in
    (outer.0, (guard-ok (is_approved a.status) _ not_approved b outer.1).0)

pub or_fail-ok :
    {A : Type 0} (x : RemediationError) (o : Option A) (a : A) → or_fail x o ≡ ok a → o ≡ some a
or_fail-ok x none a h = absurd (cc h)
or_fail-ok x (some b) a h = cc h

IsAuthorized-require_approved_approval :
    (e : Surroundings) (finding_id : String) (a : ApprovalRequest)
    → require_approved_approval e finding_id ≡ ok a
    → IsAuthorized e finding_id
unfolding require_approved_approval
IsAuthorized-require_approved_approval e finding_id a h =
    let (r, found, passed) =
      and_then-ok (or_fail no_approval (find_for_finding finding_id e.approvals)) check_approval a
        h in
    let (for_remediation, granted) = check_approval-ok r a passed in
    record {
      request = r;
      latest = or_fail-ok no_approval _ r found;
      for_remediation = for_remediation;
      is_granted = granted;
    }

-- A file of a repository's copy inside the workspace.
pub record IsInside (e : Surroundings) (path : String) : Type 0 where
  pub project : Project
  pub repo_inside : e.is_relative_to (e.repo_of project.snapshot_path) e.workspace ≡ true
  pub path_inside : e.is_relative_to path (e.repo_of project.snapshot_path) ≡ true

IsInside-target_path :
    (e : Surroundings) (p : Project) (file path : String)
    → target_path e p file ≡ ok path
    → IsInside e path
unfolding target_path
IsInside-target_path e p file path h =
    let repo = e.repo_of p.snapshot_path in
    let target = e.resolve repo file in
    let outer = guard-ok (e.is_relative_to repo e.workspace) _ outside_workspace path h in
    let inner =
      guard-ok (e.is_relative_to target repo) (ok target) escapes_repository path outer.1 in
    record {
      project = p;
      repo_inside = outer.0;
      path_inside =
          ap (λ x. e.is_relative_to x repo) (sym (ok-injective target path inner.1)) ∙ inner.0;
    }

-- What has held when a proposal is applied to a file of the world.
pub record IsReady (e : Surroundings) (finding_id : String) (confirmed : Bool) (files : Dict String)
    (r : Ready) : Type 0 where
  pub authorized : IsAuthorized e finding_id
  pub is_confirmed : confirmed ≡ true
  pub inside : IsInside e r.path
  pub text_there : get r.path files ≡ some r.text

module _ (e : Surroundings) (finding_id : String) (files : Dict String) where
  read_at-ok :
      (path : String) (x : String × String)
      → read_at files path ≡ ok x
      → (x.0 ≡ path) × (get path files ≡ some x.1)
  read_at-ok path x h =
      let (text, there, same) = and_then-ok (read_text path files) (λ text. ok (path, text)) x h in
      (cc same, cc (or_fail-ok unreadable (get path files) text there, same))

  located-ok :
      (file : String) (x : String × String)
      → located e finding_id file files ≡ ok x
      → IsInside e x.0 × (get x.0 files ≡ some x.1)
  unfolding located located_in
  located-ok file x h =
      let (project, owner, h1) =
        and_then-ok (project_for_finding e finding_id) (located_in e file files) x h in
      let (path, target, h2) = and_then-ok (target_path e project file) (read_at files) x h1 in
      let (same, there) = read_at-ok path x h2 in
      (
        subst (IsInside e) (sym same) (IsInside-target_path e project file path target),
        ap (λ y. get y files) same ∙ there,
      )

  module _ (confirmed : Bool) where
    gate-ok :
        (s : RemediationStatus) (u : Bool)
        → gate e finding_id confirmed s ≡ ok u
        → IsAuthorized e finding_id × (confirmed ≡ true)
    unfolding gate approved_and_confirmed
    gate-ok s u h =
        let (v, status, h1) =
          and_then-ok (check_status s) (approved_and_confirmed e finding_id confirmed) u h in
        let (a, approval, h2) =
          and_then-ok (require_approved_approval e finding_id) (check_confirmed confirmed) u h1 in
        (
          IsAuthorized-require_approved_approval e finding_id a approval,
          check-ok not_confirmed confirmed u h2,
        )

    IsReady-ready_with :
        (rp : RemediationRecord × RemediationProposal) (r : Ready)
        → ready_with e finding_id confirmed files rp ≡ ok r
        → IsReady e finding_id confirmed files r
    unfolding ready_with ready_gated
    IsReady-ready_with (rec, p) r h =
        let (u, gated, h1) =
          and_then-ok (gate e finding_id confirmed rec.status)
            (ready_gated e finding_id files rec p) r h in
        let (x, there, same) =
          and_then-ok (located e finding_id p.file files) (ready_at rec p) r h1 in
        let (inside, text) = located-ok p.file x there in
        let (authorized, confirmation) = gate-ok rec.status u gated in
        subst (IsReady e finding_id confirmed files) (ok-injective _ r same) (record {
          authorized = authorized;
          is_confirmed = confirmation;
          inside = inside;
          text_there = text;
        })

    IsReady-ready_for :
        (w : World) (r : Ready)
        → w.files ≡ files
        → ready_for e finding_id confirmed w ≡ ok r
        → IsReady e finding_id confirmed files r
    unfolding ready_for ready_record_for
    IsReady-ready_for w r same h =
        let (rec, got, h1) =
          and_then-ok (or_fail no_proposal (get_record finding_id w.store))
            (ready_record_for e finding_id confirmed w.files) r h in
        let (rp, with_p, h2) =
          and_then-ok (with_proposal rec) (ready_with e finding_id confirmed w.files) r h1 in
        IsReady-ready_with rp r (ap (λ f. ready_with e finding_id confirmed f rp) (sym same) ∙ h2)

-- A patch that was written.
pub record IsApplied (e : Surroundings) (finding_id : String) (confirmed : Bool) (w v : World)
    : Type 0 where
  pub ready : Ready
  pub guarded : IsReady e finding_id confirmed w.files ready
  pub patched : String
  pub applies : apply_proposal e.patches ready.proposal ready.text ≡ ok patched
  pub written : v.files ≡ set_item ready.path patched w.files

finish_apply-files :
    (e : Surroundings) (finding_id : String) (confirmed : Bool) (w : World) (r : Ready)
    (p : Result PatchError String)
    → apply_proposal e.patches r.proposal r.text ≡ p
    → IsReady e finding_id confirmed w.files r
    → ((finish_apply e r p w).1.files ≡ w.files)
      ⊎ IsApplied e finding_id confirmed w (finish_apply e r p w).1
finish_apply-files e finding_id confirmed w r (err x) h g = inl refl
finish_apply-files e finding_id confirmed w r (ok patched) h g =
    inr (record { ready = r; guarded = g; patched = patched; applies = h; written = refl })

apply_ready-files :
    (e : Surroundings) (finding_id : String) (confirmed : Bool) (w : World)
    (r : Result RemediationError Ready)
    → ready_for e finding_id confirmed w ≡ r
    → ((apply_ready e r w).1.files ≡ w.files)
      ⊎ IsApplied e finding_id confirmed w (apply_ready e r w).1
apply_ready-files e finding_id confirmed w (err x) h = inl refl
apply_ready-files e finding_id confirmed w (ok r) h =
    finish_apply-files e finding_id confirmed w r (apply_proposal e.patches r.proposal r.text) refl
      (IsReady-ready_for e finding_id w.files confirmed w r refl h)

store_result-files : (o : Outcome) (w : World) → (store_result o w).1.files ≡ w.files
store_result-files (ok r) w = refl
store_result-files (err x) w = refl

-- No proposal and no verification changes a file. An application changes none, or one: then the
-- finding's latest approval request has approved its remediation, the change was confirmed, the file
-- lies in the workspace copy of a repository, and it is given the patch of the text that it had.
pub source_changes_are_authorized :
    (e : Surroundings) (finding_id : String) (confirmed : Bool) (w : World)
    → ((propose e finding_id w).1.files ≡ w.files)
      × ((verify e finding_id w).1.files ≡ w.files)
      × (((apply e finding_id confirmed w).1.files ≡ w.files)
          ⊎ IsApplied e finding_id confirmed w (apply e finding_id confirmed w).1)
unfolding propose verify apply
source_changes_are_authorized e finding_id confirmed w = (
  store_result-files (proposal_for e finding_id w) w,
  store_result-files (verification_for e finding_id w) w,
  apply_ready-files e finding_id confirmed w (ready_for e finding_id confirmed w) refl,
)
