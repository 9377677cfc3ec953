-- ===== src/Scan/Rule.antt =====
-- ScanRule of backend/app/scan/rules/__init__.py, and the snippets of backend/app/scan/evidence.py.
use multi_stage_agentic_sast.Findings.{SourceRef, SinkRef, TaintStep}
use multi_stage_agentic_sast.Scan.Syntax.{Expr, line_of}
use multi_stage_agentic_sast.Prelude.Text.{take_chars}
use multi_stage_agentic_sast.Prelude.{ℕ, String, Bool, none, ◌∷◌, Option, some, zero, [], List, suc}

-- What the scanner takes from Python's library.
pub record Python : Type 0 where
  pub unparse : Expr → String
  pub get_source_segment : String → Expr → Option String
  pub splitlines : String → List String
  pub strip : String → String
  pub sha256_hex : String → String
  pub show : ℕ → String

-- lines[n]
abbrev pub nth : List String → ℕ → Option String
nth [] n = none
nth (l ∷ ls) zero = some l
nth (l ∷ ls) (suc n) = nth ls n

abbrev pub snippet_of : Python → Option String → String
snippet_of py none = ""
snippet_of py (some l) = take_chars 200 (py.strip l)

-- The text of a line, counted from 1.
unfoldable pub line_text : Python → String → ℕ → String
line_text py source zero = ""
line_text py source (suc n) = snippet_of py (nth (py.splitlines source) n)

unfoldable pub source_segment : Python → String → Expr → String
source_segment py source e = elim (py.get_source_segment source e) [
  | none ↦ line_text py source (line_of e)
  | some segment ↦ take_chars 200 (py.strip segment)
]

-- The contract of a rule: each method is given the file and its source. A confidence is in
-- hundredths.
pub record Rule : Type 0 where
  pub vulnerability_type : String
  pub severity : String
  pub poison_params : Bool
  pub is_source : Expr → String → String → Option SourceRef
  pub match_sink : Expr → String → String → Option SinkRef
  pub is_sanitized : Expr → SinkRef → Bool
  pub sink_expression : Expr → Option Expr
  pub confidence : List TaintStep → String → ℕ
