-- ===== src/Database/Samples.antt =====
-- Two findings that are stored, with payloads that are the findings themselves, in a database that
-- lists its rows in another order: the inputs of the example below.
use multi_stage_agentic_sast.Findings.Store
use multi_stage_agentic_sast.Database.{rehydrate, Codec, IsListing}
use multi_stage_agentic_sast.Prelude.{
  ◌≡◌, [], refl, true, some, ◌++◌, none, arith, if◌then◌else◌, String, ◌∷◌, eq_iff, ◌==◌,
}
use multi_stage_agentic_sast.Findings.{CandidateFinding}
use multi_stage_agentic_sast.Findings.Store.{FindingStore, remove_finding}
use multi_stage_agentic_sast.Database.Stores.{
  write_findings, reload_restores_findings, removed, added, unused,
}
use multi_stage_agentic_sast.Prelude.Dict.{IsUnique, Dict, get}

abbrev stored_finding : CandidateFinding
stored_finding = record {
  id = "f1";
  vulnerability_type = "ssrf";
  severity = "high";
  confidence = 90;
  source_ref = record { file = "a.py"; line = 1; snippet = "q"; kind = "request_param" };
  sink_ref = record { file = "a.py"; line = 2; snippet = "get"; kind = "http_request" };
  taint_path = [];
  evidence = record {
    source_snippet = "q";
    sink_snippet = "get";
    taint_path = [];
    relevant_lines = [];
    sanitizer_observations = [];
  };
}

abbrev identity : Codec CandidateFinding CandidateFinding
identity = record { dump = λ f. f; validate = λ f. some f }

abbrev other_finding : CandidateFinding
other_finding = record stored_finding { id = "f2" }

abbrev empty_store : FindingStore
empty_store = record { findings = []; factory = true; writes = [] }

abbrev used_store : FindingStore
used_store = remove_finding "f0" (Store.add other_finding (Store.add stored_finding empty_store))

-- A database that gives the row of the first key last.
abbrev rotated : Dict CandidateFinding → Dict CandidateFinding
rotated [] = []
rotated (row ∷ rows) = rows ++ row ∷ []

get-snoc :
    (k j : String) (f : CandidateFinding) (rows : Dict CandidateFinding)
    → get j rows ≡ none
    → get k (rows ++ (j, f) ∷ []) ≡ (if j == k then some f else get k rows)
unfolding get
get-snoc k j f [] fresh = refl
get-snoc k j f ((i, g) ∷ rows) fresh =
    ground (arith, eq_iff j k, eq_iff i k, eq_iff i j, fresh, get-snoc k j f rows)

IsUnique-snoc :
    (j : String) (f : CandidateFinding) (rows : Dict CandidateFinding)
    → get j rows ≡ none
    → IsUnique rows
    → IsUnique (rows ++ (j, f) ∷ [])
unfolding get
IsUnique-snoc j f [] fresh u = (refl, tt)
IsUnique-snoc j f ((i, g) ∷ rows) fresh u =
    let below : get j rows ≡ none = ground (arith, fresh) in
    (
      ground (arith, eq_iff i j, eq_iff j i, fresh, u.0, get-snoc i j f rows below),
      IsUnique-snoc j f rows below u.1,
    )

get-rotated :
    (rows : Dict CandidateFinding) (k : String) → IsUnique rows → get k (rotated rows) ≡ get k rows
unfolding get
get-rotated [] k u = refl
get-rotated ((j, f) ∷ rows) k u = get-snoc k j f rows u.0

IsUnique-rotated : (rows : Dict CandidateFinding) → IsUnique rows → IsUnique (rotated rows)
IsUnique-rotated [] u = tt
IsUnique-rotated ((j, f) ∷ rows) u = IsUnique-snoc j f rows u.0 u.1

rotated-IsListing : IsListing rotated
rotated-IsListing = record { every = get-rotated; once = IsUnique-rotated }

reload_restores_findings_example :
    (loaded : Dict CandidateFinding) × (rehydrate identity true rotated
        (write_findings identity used_store.writes [])
      ≡ some loaded)
    × IsUnique loaded
    × ((k : String) → get k loaded ≡ get k used_store.findings)
reload_restores_findings_example =
    reload_restores_findings identity rotated (λ f. refl) rotated-IsListing
      (removed "f0" (added other_finding (added stored_finding unused)))
