-- ===== src/Dedup.antt =====
-- DEDUPLICATE: backend/app/dedup/fingerprint.py, models.py and the grouping of service.py.
pub mod Registry
pub mod Buckets
pub mod Groups
pub mod Removal
use multi_stage_agentic_sast.Prelude.{
  length, ◌∷◌, List, ◌&&◌, Bool, ℕ, some, true, [], Option, ◌++◌, false, String, map, if◌then◌else◌,
  none, ◌==◌,
}
use multi_stage_agentic_sast.Findings.Store.{get_finding, FindingStore}
use multi_stage_agentic_sast.Findings.{
  StepType, CandidateFinding, TaintStep, source, assignment, propagation, string_construction, sink,
}
use multi_stage_agentic_sast.Prelude.Text.{join}
use multi_stage_agentic_sast.Prelude.Sort.{text_ltb}
use multi_stage_agentic_sast.Prelude.Dict.{contains, set_item, Dict, get}
use multi_stage_agentic_sast.Scan.Engine.{sorted_names}
mod Samples
use Prim.Native.String

-- The tokens of tokenize, by what normalize_snippet asks of them; `literal` is any of
-- _LITERAL_TYPES.
pub data TokenType : Type 0 where
  op name literal other_token : TokenType

pub record Token : Type 0 where
  pub type : TokenType
  pub text : String

-- What deduplication takes from Python's library: tokenize (no result where it raises), strip, the
-- parts of a path, and the digest.
pub record DedupLibrary : Type 0 where
  pub tokenize : String → Option (List Token)
  pub strip : String → String
  pub path_parts : String → List String
  pub sha256_hex : String → String

abbrev pub is_name : Token → Bool
is_name t = elim t.type [ name ↦ true | _ ↦ false ]

abbrev pub is_dot : Token → Bool
is_dot t = elim t.type [ op ↦ t.text == "." | _ ↦ false ]

-- What one token leaves of itself.
abbrev pub token_part : Token → List String
token_part t = elim t.type [
  | op ↦ t.text ∷ []
  | name ↦ "_n_" ∷ []
  | literal ↦ "_lit_" ∷ []
  | other_token ↦ []
]

-- The loop of normalize_snippet: a name after a dot is kept.
unfoldable pub token_parts : List Token → List String
token_parts [] = []
token_parts (t ∷ []) = token_part t
token_parts (t ∷ u ∷ ts) =
    let after = token_parts ts in
    let next = token_parts (u ∷ ts) in
    if is_dot t && is_name u then String.◌++◌ "." u.text ∷ after else token_part t ++ next

unfoldable pub normalize_snippet : DedupLibrary → String → String
unfolding token_parts join
normalize_snippet lib snippet =
    if lib.strip snippet == "" then "" else elim (lib.tokenize snippet) [
      | none ↦ "_unparsable_"
      | some tokens ↦ join " " (token_parts tokens)
    ]

pub record FindingFingerprint : Type 0 where
  pub value : String
  pub structural_signature : String
  pub vulnerability_type : String
  pub source_category : String
  pub sink_category : String
  pub normalized_source : String
  pub normalized_sink : String
  pub taint_structure : String

abbrev pub step_name : StepType → String
step_name source = "source"
step_name assignment = "assignment"
step_name propagation = "propagation"
step_name string_construction = "string_construction"
step_name sink = "sink"

-- FindingFingerprintBuilder.build
unfoldable pub build : DedupLibrary → CandidateFinding → FindingFingerprint
unfolding normalize_snippet
build lib f =
    let normalized_source = normalize_snippet lib f.source_ref.snippet in
    let normalized_sink = normalize_snippet lib f.sink_ref.snippet in
    let structure = join "->" (map (λ (s : TaintStep). step_name s.step_type) f.taint_path) in
    let signature = join "|" (
      f.vulnerability_type ∷ f.source_ref.kind ∷ f.sink_ref.kind ∷ normalized_source
      ∷ normalized_sink ∷ structure ∷ []) in
    record {
      value = lib.sha256_hex signature;
      structural_signature = signature;
      vulnerability_type = f.vulnerability_type;
      source_category = f.source_ref.kind;
      sink_category = f.sink_ref.kind;
      normalized_source = normalized_source;
      normalized_sink = normalized_sink;
      taint_structure = structure;
    }

pub record DeduplicationGroup : Type 0 where
  pub fingerprint : String
  pub structural_signature : String
  pub canonical_finding_id : String
  pub member_finding_ids : List String
  pub occurrence_count : ℕ
  pub repositories : List String
  pub vulnerability_type : String
  pub representative_finding : CandidateFinding
  pub match_reasons : List String

pub record DeduplicationResult : Type 0 where
  pub total_findings : ℕ
  pub unique_findings : ℕ
  pub duplicate_findings : ℕ
  pub groups : List DeduplicationGroup

-- MATCH_REASONS
abbrev pub match_reasons : List String
match_reasons =
    "same vulnerability type" ∷ "same source category" ∷ "same sink category"
    ∷ "same normalized source pattern" ∷ "same normalized sink pattern"
    ∷ "same normalized taint structure" ∷ []

abbrev label_of : List String → String
label_of [] = "unknown"
label_of (p ∷ []) = p
label_of (p ∷ q ∷ []) = p
label_of (p ∷ q ∷ ps) = label_of (q ∷ ps)

-- repo_label_for_file: the last part but one, else the only one.
unfoldable pub repo_label_for_file : DedupLibrary → String → String
repo_label_for_file lib path = label_of (lib.path_parts path)

abbrev pub Bucket : Type 0
Bucket = FindingFingerprint × List CandidateFinding

abbrev pub into_bucket : FindingFingerprint → CandidateFinding → Option Bucket → Bucket
into_bucket p f none = (p, f ∷ [])
into_bucket p f (some (q, members)) = (q, members ++ f ∷ [])

-- The buckets of the findings, by fingerprint.
unfoldable pub fill_buckets : DedupLibrary → List CandidateFinding → Dict Bucket → Dict Bucket
unfolding build get set_item
fill_buckets lib [] buckets = buckets
fill_buckets lib (f ∷ fs) buckets =
    let p = build lib f in
    fill_buckets lib fs (set_item p.value (into_bucket p f (get p.value buckets)) buckets)

abbrev pub found : Option CandidateFinding → List CandidateFinding
found none = []
found (some f) = f ∷ []

-- The members of an earlier group that were not submitted and are still in the store.
unfoldable pub retained : FindingStore → List String → List String → List CandidateFinding
unfolding get_finding contains
retained store submitted [] = []
retained store submitted (m ∷ ms) =
    let rest = retained store submitted ms in
    if contains m submitted then rest else found (get_finding m store) ++ rest

abbrev pub member_ids : Option DeduplicationGroup → List String
member_ids none = []
member_ids (some g) = g.member_finding_ids

abbrev pub by_id : CandidateFinding → CandidateFinding → Bool
by_id f g = text_ltb f.id g.id

abbrev pub ids : List CandidateFinding → List String
ids fs = map (λ (f : CandidateFinding). f.id) fs

abbrev pub labels : DedupLibrary → List CandidateFinding → List String
labels lib fs =
    sorted_names (map (λ (f : CandidateFinding). repo_label_for_file lib f.source_ref.file) fs)

-- The group of a bucket: its findings in order, of which the first is canonical. A bucket has at
-- least one.
abbrev pub group_of_ordered :
    DedupLibrary → String → FindingFingerprint → List CandidateFinding → Option DeduplicationGroup
group_of_ordered lib value p [] = none
group_of_ordered lib value p (c ∷ cs) = some (record {
  fingerprint = value;
  structural_signature = p.structural_signature;
  canonical_finding_id = c.id;
  member_finding_ids = ids (c ∷ cs);
  occurrence_count = length (c ∷ cs);
  repositories = labels lib (c ∷ cs);
  vulnerability_type = p.vulnerability_type;
  representative_finding = c;
  match_reasons = match_reasons;
})
