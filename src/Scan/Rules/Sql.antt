-- ===== src/Scan/Rules/Sql.antt =====
-- backend/app/scan/rules/sql_injection.py
use multi_stage_agentic_sast.Prelude.Dict.{contains}
use multi_stage_agentic_sast.Findings.{SinkRef}
use multi_stage_agentic_sast.Scan.Syntax.{Expr, constant, attribute, call, expr, keywords_list}
use multi_stage_agentic_sast.Scan.Rule.{Python, Rule, source_segment}
use multi_stage_agentic_sast.Scan.Rules.{request_source, taint_confidence, first_argument}
use multi_stage_agentic_sast.Prelude.Text.{last_part}
use multi_stage_agentic_sast.Prelude.{
  String, ◌&&◌, none, false, ◌||◌, ◌==◌, any, if◌then◌else◌, [], not, ◌∷◌, some, List, true, Option,
  Bool,
}

abbrev pub sql_object_names : List String
sql_object_names =
    "cursor" ∷ "curs" ∷ "cur" ∷ "conn" ∷ "con" ∷ "connection" ∷ "db" ∷ "database" ∷ "engine"
    ∷ "session" ∷ "handle" ∷ []

abbrev pub sql_methods : List String
sql_methods = "execute" ∷ "executemany" ∷ "executescript" ∷ []

-- The receiver is `self`, or its last name is that of a database handle.
unfoldable pub is_database : String → Bool
unfolding last_part contains
is_database receiver = receiver == "self" || contains (last_part receiver) sql_object_names

unfoldable pub match_sql_sink : Python → Expr → String → String → Option SinkRef
unfolding is_database source_segment contains
match_sql_sink py (call l (attribute m receiver method) args kws) file source =
    if contains method sql_methods && is_database (py.unparse receiver)
    then some (record {
      file = file;
      line = l;
      snippet = source_segment py source (call l (attribute m receiver method) args kws);
      kind = "sql_execute";
    })
    else none
match_sql_sink py _ file source = none

abbrev pub is_none : Expr → Bool
is_none (constant l n) = n
is_none _ = false

-- A second positional argument other than None.
abbrev pub has_second : Expr → Bool
has_second (call l f (expr a (expr b more)) kws) = not (is_none b)
has_second _ = false

abbrev pub names_parameters : Option String × Expr → Bool
names_parameters (none, value) = false
names_parameters (some k, value) = (k == "parameters" || k == "params") && not (is_none value)

-- is_sanitized: a query with parameters
unfoldable pub is_parameterized : Expr → SinkRef → Bool
is_parameterized (call l f args kws) sink =
    has_second (call l f args kws) || any names_parameters (keywords_list kws)
is_parameterized _ sink = false

abbrev pub sql_injection_rule : Python → Rule
sql_injection_rule py = record {
  vulnerability_type = "sql_injection";
  severity = "high";
  poison_params = true;
  is_source = request_source py;
  match_sink = match_sql_sink py;
  is_sanitized = is_parameterized;
  sink_expression = first_argument;
  confidence = taint_confidence;
}
