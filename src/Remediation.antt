-- ===== src/Remediation.antt =====
-- REMEDIATION: backend/app/remediation/models.py, store.py, and the application of a patch in
-- patches.py.
pub mod Service
pub mod Actions
pub mod Guarded
pub mod Verified
use multi_stage_agentic_sast.Prelude.{
  eqb, Option, suc, send, ◌++◌, List, String, none, if◌then◌else◌, Bool, ◌&&◌, zero, ◌∷◌, ℕ, ◌||◌,
  some, [], ltb, ◌==◌,
}
use multi_stage_agentic_sast.Prelude.Dict.{Dict, pop, set_item, values, get}
use multi_stage_agentic_sast.Prelude.Exec.{err, Result, ok}
use multi_stage_agentic_sast.Prelude.Datetime.{Datetime}
mod Samples
use Prim.Native.String

pub data RemediationStatus : Type 0 where
  proposed no_fix_available applied verified still_present error : RemediationStatus

pub record RemediationProposal : Type 0 where
  pub finding_id : String
  pub vulnerability_type : String
  pub file : String
  pub line : ℕ
  pub strategy : String
  pub before : String
  pub replacement : String
  pub import_to_add : Option String
  pub rationale : String

pub record RemediationRecord : Type 0 where
  pub finding_id : String
  pub approval_id : String
  pub status : RemediationStatus
  pub proposal : Option RemediationProposal
  pub applied_at : Option Datetime
  pub applied_by : Option String
  pub verified_at : Option Datetime
  pub verification : Option String
  pub error_text : Option String
  pub created_at : Datetime

pub data Write : Type 0 where
  upsert_record : String → RemediationRecord → Write
  delete_record : String → Write
  delete_all_records : Write

pub record RemediationStore : Type 0 where
  pub records : Dict RemediationRecord
  pub factory : Bool
  pub writes : List Write

unfoldable pub put_record : RemediationRecord → RemediationStore → RemediationStore
put_record r s = record s {
  records = set_item r.finding_id r s.records;
  writes = send s.factory (upsert_record r.finding_id r ∷ []) s.writes;
}

unfoldable pub get_record : String → RemediationStore → Option RemediationRecord
get_record finding_id s = get finding_id s.records

unfoldable pub all_records : RemediationStore → List RemediationRecord
unfolding values
all_records s = values s.records

unfoldable pub remove_record : String → RemediationStore → RemediationStore
remove_record finding_id s = record s {
  records = pop finding_id s.records;
  writes = send s.factory (delete_record finding_id ∷ []) s.writes;
}

unfoldable pub clear_records : RemediationStore → RemediationStore
clear_records s = record s {
  records = [];
  writes = send s.factory (delete_all_records ∷ []) s.writes;
}

-- The messages of PatchError.
pub data PatchError : Type 0 where
  no_automatic_fix outside_file source_changed does_not_parse : PatchError

-- What a patch takes from Python's library. `docstring_end` is the last line of the docstring that
-- a parsed source begins with, 0 where it has none, and no result where the source does not parse.
pub record PatchLibrary : Type 0 where
  pub splitlines_keepends : String → List String
  pub rstrip_newlines : String → String
  pub strip : String → String
  pub indent : String → ℕ
  pub ends_line : String → Bool
  pub docstring_end : String → Option ℕ
  pub parses : String → Bool

abbrev concat_lines : List String → String
concat_lines [] = ""
concat_lines (l ∷ ls) = String.◌++◌ l (concat_lines ls)

abbrev pub closes : String → Bool
closes s = s == ")" || (s == "]" || s == "}")

-- The lines after a statement's first: the loop that advances `end_idx`.
unfoldable pub rest_after : PatchLibrary → ℕ → List String → List String
rest_after lib start [] = []
rest_after lib start (l ∷ ls) =
    let rest = rest_after lib start ls in
    let nxt = lib.rstrip_newlines l in
    if nxt == ""
    then l ∷ ls
    else if ltb start (lib.indent nxt)
    then rest
    else if eqb (lib.indent nxt) start && closes (lib.strip nxt)
    then ls
    else l ∷ ls

-- The lines of the replacement, of which the last ends with a newline.
abbrev pub end_line : PatchLibrary → List String → List String
end_line lib [] = []
end_line lib (l ∷ []) = (if lib.ends_line l then l else String.◌++◌ l "\n") ∷ []
end_line lib (l ∷ m ∷ ls) = l ∷ end_line lib (m ∷ ls)

-- lines.insert(n, line)
abbrev pub insert_at : ℕ → String → List String → List String
insert_at zero line ls = line ∷ ls
insert_at (suc n) line [] = line ∷ []
insert_at (suc n) line (l ∷ ls) = l ∷ insert_at n line ls

-- _insert_import
unfoldable pub insert_import : PatchLibrary → String → String → String
insert_import lib source import_line = elim (lib.docstring_end source) [
  | none ↦ source
  | some n ↦
      concat_lines (insert_at n (String.◌++◌ import_line "\n") (lib.splitlines_keepends source))
]

abbrev pub with_import : PatchLibrary → Option String → String → String
with_import lib none source = source
with_import lib (some i) source = insert_import lib source i

abbrev pub checked : PatchLibrary → String → Result PatchError String
checked lib source = if lib.parses source then ok source else err does_not_parse

-- The statement that begins at the line is replaced, if the line is still what it was.
abbrev pub patched_lines :
    PatchLibrary → RemediationProposal → List String → List String → Result PatchError String
patched_lines lib p done [] = err outside_file
patched_lines lib p done (l ∷ ls) =
    let current = lib.rstrip_newlines l in
    if current == p.before
    then checked lib (
        with_import lib p.import_to_add (
          concat_lines (
            done
            ++ (end_line lib (lib.splitlines_keepends p.replacement)
                ++ rest_after lib (lib.indent current) ls))))
    else err source_changed

-- Splits the lines before index n from the others.
abbrev pub patch_at :
    PatchLibrary → RemediationProposal → ℕ → List String → List String → Result PatchError String
patch_at lib p zero done ls = patched_lines lib p done ls
patch_at lib p (suc n) done [] = err outside_file
patch_at lib p (suc n) done (l ∷ ls) = patch_at lib p n (done ++ l ∷ []) ls

abbrev pub patch_line :
    PatchLibrary → RemediationProposal → ℕ → List String → Result PatchError String
patch_line lib p zero ls = err outside_file
patch_line lib p (suc n) ls = patch_at lib p n [] ls

unfoldable pub apply_proposal :
    PatchLibrary → RemediationProposal → String → Result PatchError String
unfolding rest_after insert_import
apply_proposal lib p source =
    if p.strategy == "no_automatic_fix"
    then err no_automatic_fix
    else patch_line lib p p.line (lib.splitlines_keepends source)
