-- ===== src/Prove/Store.antt =====
-- ProofStore of backend/app/prove/store.py.
use multi_stage_agentic_sast.Prelude.{Bool, String, List, ◌∷◌, Option, send, []}
use multi_stage_agentic_sast.Prelude.Dict.{get, pop, Dict, values, set_item}
use multi_stage_agentic_sast.Prove.Models.{ProofResult}

pub data Write : Type 0 where
  upsert_proof : String → ProofResult → Write
  delete_proof : String → Write
  delete_all_proofs : Write

pub record ProofStore : Type 0 where
  pub results : Dict ProofResult
  pub factory : Bool
  pub writes : List Write

unfoldable pub record_proof : ProofResult → ProofStore → ProofStore
record_proof r s = record s {
  results = set_item r.finding_id r s.results;
  writes = send s.factory (upsert_proof r.finding_id r ∷ []) s.writes;
}

unfoldable pub get_proof : String → ProofStore → Option ProofResult
get_proof finding_id s = get finding_id s.results

unfoldable pub all_proofs : ProofStore → List ProofResult
unfolding values
all_proofs s = values s.results

unfoldable pub remove_proof : String → ProofStore → ProofStore
remove_proof finding_id s = record s {
  results = pop finding_id s.results;
  writes = send s.factory (delete_proof finding_id ∷ []) s.writes;
}

unfoldable pub clear_proofs : ProofStore → ProofStore
clear_proofs s = record s {
  results = [];
  writes = send s.factory (delete_all_proofs ∷ []) s.writes;
}
