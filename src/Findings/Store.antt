-- ===== src/Findings/Store.antt =====
-- FindingStore of backend/app/validate/store.py, with its database effects as the list `writes`.
use multi_stage_agentic_sast.Findings.{CandidateFinding, ScanReport, String, Dict, List}
use multi_stage_agentic_sast.Prelude.Dict.{get, values, set_item, pop}
use multi_stage_agentic_sast.Prelude.{Bool, Option, [], send, ◌∷◌}

pub data Write : Type 0 where
  upsert_finding : String → CandidateFinding → Write
  delete_finding : String → Write
  delete_all : Write

pub record FindingStore : Type 0 where
  pub findings : Dict CandidateFinding
  pub factory : Bool
  pub writes : List Write

unfoldable pub add : CandidateFinding → FindingStore → FindingStore
add f s = record s {
  findings = set_item f.id f s.findings;
  writes = send s.factory (upsert_finding f.id f ∷ []) s.writes;
}

unfoldable pub add_all : List CandidateFinding → FindingStore → FindingStore
unfolding add
add_all [] s = s
add_all (f ∷ fs) s = add_all fs (add f s)

unfoldable pub add_report : ScanReport → FindingStore → FindingStore
add_report report s = add_all report.findings s

unfoldable pub get_finding : String → FindingStore → Option CandidateFinding
get_finding finding_id s = get finding_id s.findings

unfoldable pub all_findings : FindingStore → List CandidateFinding
unfolding values
all_findings s = values s.findings

unfoldable pub remove_finding : String → FindingStore → FindingStore
remove_finding finding_id s = record s {
  findings = pop finding_id s.findings;
  writes = send s.factory (delete_finding finding_id ∷ []) s.writes;
}

unfoldable pub clear : FindingStore → FindingStore
clear s = record s { findings = []; writes = send s.factory (delete_all ∷ []) s.writes }
