-- ===== src/Dedup/Groups.antt =====
-- What a deduplication makes of the registry, fingerprint by fingerprint.
use multi_stage_agentic_sast.Prelude.{some, ◌∷◌, none, String, Option, [], List}
use multi_stage_agentic_sast.Prelude.Dict.{Dict}
use multi_stage_agentic_sast.Dedup.Registry.{Registry, group_of}
use multi_stage_agentic_sast.Dedup.{DedupLibrary, DeduplicationGroup, Bucket, build}
use multi_stage_agentic_sast.Findings.Store.{FindingStore}
use multi_stage_agentic_sast.Findings.{CandidateFinding}

abbrev or_else : Option DeduplicationGroup → Option DeduplicationGroup → Option DeduplicationGroup
or_else none old = old
or_else (some g) old = some g

module _ (lib : DedupLibrary) (store : FindingStore) (submitted : List String) where
  abbrev after : String → Option Bucket → Option DeduplicationGroup → Option DeduplicationGroup
  after v none old = old
  after v (some b) old = or_else (group_of lib store submitted v b old) old

  -- The group of a fingerprint after these findings with it were submitted.
  abbrev pub regrouped :
      String → List CandidateFinding → Option DeduplicationGroup → Option DeduplicationGroup
  regrouped v [] old = old
  regrouped v (m ∷ ms) old = group_of lib store submitted v (build lib m, m ∷ ms) old
