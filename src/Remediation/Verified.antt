-- ===== src/Remediation/Verified.antt =====
-- What a verification says.
use multi_stage_agentic_sast.Remediation.Service.{
  Surroundings, Outcome, World, Project, store_result, or_fail, unreadable, no_record,
  project_for_finding, check, not_applied,
}
use multi_stage_agentic_sast.Prelude.{
  ℕ, false, ◌∙◌, ap, subst, List, true, some, ◌≡◌, refl, Bool, String,
}
use multi_stage_agentic_sast.Prelude.Exec.{and_then-ok, err, ok, ok-injective}
use multi_stage_agentic_sast.Remediation.Actions.{
  verify, rescan, verification_for, verified_record, record_rescanned, owner_rescanned, rescanned,
  is_verifiable, is_reported, verified_by,
}
use multi_stage_agentic_sast.Remediation.{
  RemediationStatus, RemediationRecord, still_present, get_record, verified,
}
use multi_stage_agentic_sast.Findings.{ScanReport}
use multi_stage_agentic_sast.Scan.Engine.{CodeFile}
use multi_stage_agentic_sast.Scan.Service.{scan, default_rules}
use multi_stage_agentic_sast.Remediation.Guarded.{or_fail-ok, check-ok}

abbrev pub verification_text : Bool → String
verification_text true = "still_present"
verification_text false = "verified"

abbrev pub IsStatus : Bool → RemediationStatus → Type 0
IsStatus true s = s ≡ still_present
IsStatus false s = s ≡ verified

-- The default rules' scan of a finding's project, as PREPARE left it, decides the verification of a
-- fix that had been applied.
pub record IsRescanned (e : Surroundings) (finding_id : String) (w : World) (r : RemediationRecord)
    : Type 0 where
  pub previous : RemediationRecord
  pub project : Project
  pub files : List CodeFile
  pub stored : get_record finding_id w.store ≡ some previous
  pub had_applied : is_verifiable previous.status ≡ true
  pub owner : project_for_finding e finding_id ≡ ok project
  pub loaded : e.load_code_model project ≡ some files
  pub said :
      let found =
        is_reported finding_id
          (scan e.python e.report_env (default_rules e.python) project.id files) in
      (r.verification ≡ some (verification_text found)) × IsStatus found r.status

verified_record-said :
    (now : ℕ) (b : Bool) (r : RemediationRecord)
    → ((verified_record now b r).verification ≡ some (verification_text b))
      × IsStatus b (verified_record now b r).status
verified_record-said now true r = (refl, refl)
verified_record-said now false r = (refl, refl)

module _ (e : Surroundings) (finding_id : String) where
  abbrev scan_of : Project → List CodeFile → ScanReport
  scan_of project files = scan e.python e.report_env (default_rules e.python) project.id files

  rescan-ok :
      (project : Project) (report : ScanReport)
      → rescan e project ≡ ok report
      → (files : List CodeFile) × (e.load_code_model project ≡ some files)
        × (scan_of project files ≡ report)
  unfolding rescan
  rescan-ok project report h =
      let (files, loaded, same) =
        and_then-ok (or_fail unreadable (e.load_code_model project))
          (λ files. ok (scan_of project files)) report h in
      (
        files,
        or_fail-ok unreadable (e.load_code_model project) files loaded,
        ok-injective (scan_of project files) report same,
      )

  IsRescanned-verification_for :
      (w : World) (r : RemediationRecord)
      → verification_for e finding_id w ≡ ok r
      → IsRescanned e finding_id w r
  unfolding verification_for record_rescanned owner_rescanned rescanned
  IsRescanned-verification_for w r h =
      let (old, got, h1) =
        and_then-ok (or_fail no_record (get_record finding_id w.store))
          (record_rescanned e finding_id) r h in
      let (u, verifiable, h2) =
        and_then-ok (check not_applied (is_verifiable old.status))
          (owner_rescanned e finding_id old) r h1 in
      let (project, owner, h3) =
        and_then-ok (project_for_finding e finding_id) (rescanned e finding_id old) r h2 in
      let (report, scanned, h4) =
        and_then-ok (rescan e project) (verified_by e finding_id old) r h3 in
      let (files, loaded, same) = rescan-ok project report scanned in
      let done =
        ap (λ x. verified_record e.now (is_reported finding_id x) old) same
        ∙ ok-injective (verified_record e.now (is_reported finding_id report) old) r h4 in
      record {
        previous = old;
        project = project;
        files = files;
        stored = or_fail-ok no_record (get_record finding_id w.store) old got;
        had_applied = check-ok not_applied (is_verifiable old.status) u verifiable;
        owner = owner;
        loaded = loaded;
        said =
            let found = is_reported finding_id (scan_of project files) in
            subst
              (λ (x : RemediationRecord).
                (x.verification ≡ some (verification_text found)) × IsStatus found x.status)
              done (verified_record-said e.now found old);
      }

store_result-ok :
    (o : Outcome) (w : World) (r : RemediationRecord) → (store_result o w).0 ≡ ok r → o ≡ ok r
store_result-ok (ok s) w r h = h
store_result-ok (err x) w r h = h

-- When a verification succeeds, the finding's fix had been applied, and the default rules' scan of its
-- project's code model decides: the record says "still_present" if the finding is among those of the
-- report, and "verified" if it is not.
pub verification_is_rescan :
    (e : Surroundings) (finding_id : String) (w : World) (r : RemediationRecord)
    → (verify e finding_id w).0 ≡ ok r
    → IsRescanned e finding_id w r
unfolding verify
verification_is_rescan e finding_id w r h =
    IsRescanned-verification_for e finding_id w r
      (store_result-ok (verification_for e finding_id w) w r h)
