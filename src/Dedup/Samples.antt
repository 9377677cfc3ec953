-- ===== src/Dedup/Samples.antt =====
-- Two findings of one pattern in two repositories: the inputs of the examples below.
use multi_stage_agentic_sast.Prelude.Dict.{values, set_item, get, contains}
use multi_stage_agentic_sast.Prelude.Sort.{sorted, insert_sorted}
use multi_stage_agentic_sast.Dedup.Registry.{
  all_groups, Registry, deduplicate, lookup_group, remove_findings, group_buckets, group_of,
}
use multi_stage_agentic_sast.Prelude.Text.{join}
use multi_stage_agentic_sast.Prelude.{refl, true, ◌≡◌, [], String, ◌∷◌, some, All}
use multi_stage_agentic_sast.Findings.Store.{FindingStore, get_finding}
use multi_stage_agentic_sast.Dedup.{
  DedupLibrary, fill_buckets, name, build, normalize_snippet, token_parts, retained, member_ids,
}
use multi_stage_agentic_sast.Findings.{CandidateFinding}
use multi_stage_agentic_sast.Dedup.Removal.{
  IsConsistent, IsFree, deleted_findings_leave_groups, groups_stay-IsConsistent,
}

-- A stand-in for Python's library: every snippet is one name, and a digest is its text.
abbrev library : DedupLibrary
library = record {
  tokenize = λ s. some (record { type = name; text = s } ∷ []);
  strip = λ s. s;
  path_parts = λ p. p ∷ "a.py" ∷ [];
  sha256_hex = λ s. s;
}

abbrev finding_in : String → String → CandidateFinding
finding_in id file = record {
  id = id;
  vulnerability_type = "ssrf";
  severity = "high";
  confidence = 90;
  source_ref = record { file = file; line = 1; snippet = "q"; kind = "request_param" };
  sink_ref = record { file = file; line = 2; snippet = "get"; kind = "http_request" };
  taint_path = [];
  evidence = record {
    source_snippet = "q";
    sink_snippet = "get";
    taint_path = [];
    relevant_lines = [];
    sanitizer_observations = [];
  };
}

abbrev first_found : CandidateFinding
first_found = finding_in "f1" "one"

abbrev second_found : CandidateFinding
second_found = finding_in "f2" "two"

abbrev store : FindingStore
store = record {
  findings = ("f1", first_found) ∷ ("f2", second_found) ∷ [];
  factory = true;
  writes = [];
}

abbrev empty_registry : Registry
empty_registry = record { groups = []; factory = true; writes = [] }

abbrev pattern : String
pattern = "ssrf|request_param|http_request|_n_|_n_|"

-- The finding of the second scan joins that of the first, which is read from the store.
second_scan_joins :
    member_ids (
      lookup_group pattern
        (deduplicate library store
          (second_found ∷ [])
          (deduplicate library store (first_found ∷ []) empty_registry).1).1)
    ≡ "f1" ∷ "f2" ∷ []
unfolding deduplicate fill_buckets group_buckets group_of lookup_group get set_item build
    normalize_snippet token_parts join retained get_finding contains sorted insert_sorted
second_scan_joins = refl

abbrev grouped : Registry
grouped = (deduplicate library store (first_found ∷ second_found ∷ []) empty_registry).1

deleted_findings_leave_groups_example :
    All (IsFree ("f1" ∷ [])) (all_groups (remove_findings library store ("f1" ∷ []) grouped))
deleted_findings_leave_groups_example =
    deleted_findings_leave_groups library store ("f1" ∷ []) grouped (refl, (refl, tt))

none_yet : All IsConsistent (all_groups empty_registry)
unfolding all_groups values
none_yet = tt

groups_stay-IsConsistent_example :
    All IsConsistent (all_groups (deduplicate library store (first_found ∷ []) empty_registry).1)
    × All IsConsistent (all_groups (remove_findings library store ("f1" ∷ []) empty_registry))
groups_stay-IsConsistent_example =
    groups_stay-IsConsistent library store (first_found ∷ []) ("f1" ∷ []) empty_registry none_yet
