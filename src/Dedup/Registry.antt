-- ===== src/Dedup/Registry.antt =====
-- DeduplicationService and the registry of groups, of backend/app/dedup/service.py.
use multi_stage_agentic_sast.Prelude.{
  length, ◌∷◌, eqb, any, ◌-◌, select, List, Bool, not, some, [], Option, ◌++◌, String, map,
  if◌then◌else◌, none, send,
}
use multi_stage_agentic_sast.Findings.Store.{get_finding, FindingStore}
use multi_stage_agentic_sast.Prelude.Dict.{values, contains, set_item, Dict, get}
use multi_stage_agentic_sast.Dedup.{
  DeduplicationGroup, DedupLibrary, fill_buckets, retained, repo_label_for_file, found,
  DeduplicationResult, by_id, Bucket, ids, labels, group_of_ordered, member_ids,
}
use multi_stage_agentic_sast.Prelude.Sort.{sorted}
use multi_stage_agentic_sast.Findings.{CandidateFinding}

pub data Write : Type 0 where
  delete_all_groups : Write
  insert_group : DeduplicationGroup → Write

pub record Registry : Type 0 where
  pub groups : Dict DeduplicationGroup
  pub factory : Bool
  pub writes : List Write

-- _persist_groups
unfoldable pub persist_groups : Dict DeduplicationGroup → List Write
unfolding values
persist_groups groups = delete_all_groups ∷ map insert_group (values groups)

-- The group of a bucket, with what stays of the earlier group.
unfoldable pub group_of :
    DedupLibrary
    → FindingStore
    → List String
    → String
    → Bucket
    → Option DeduplicationGroup
    → Option DeduplicationGroup
unfolding retained sorted repo_label_for_file
group_of lib store submitted value (p, members) existing =
    group_of_ordered lib value p
      (sorted by_id (members ++ retained store submitted (member_ids existing)))

abbrev pub Grouped : Type 0
Grouped = Dict DeduplicationGroup × List DeduplicationGroup

abbrev pub add_group : String → Option DeduplicationGroup → Grouped → Grouped
add_group value none (registry, groups) = (registry, groups)
add_group value (some g) (registry, groups) = (set_item value g registry, groups ++ g ∷ [])

-- The loop over the buckets.
unfoldable pub group_buckets :
    DedupLibrary → FindingStore → List String → Dict Bucket → Grouped → Grouped
unfolding group_of get set_item
group_buckets lib store submitted [] s = s
group_buckets lib store submitted ((value, b) ∷ buckets) s =
    group_buckets lib store submitted buckets
      (add_group value (group_of lib store submitted value b (get value s.0)) s)

-- deduplicate
unfoldable pub deduplicate :
    DedupLibrary → FindingStore → List CandidateFinding → Registry → DeduplicationResult × Registry
unfolding fill_buckets group_buckets persist_groups
deduplicate lib store findings r =
    let s : Grouped =
      group_buckets lib store (ids findings) (fill_buckets lib findings []) (r.groups, []) in
    (
      record {
        total_findings = length findings;
        unique_findings = length s.1;
        duplicate_findings = length findings - length s.1;
        groups = s.1;
      },
      record r { groups = s.0; writes = send r.factory (persist_groups s.0) r.writes },
    )

unfoldable pub lookup_group : String → Registry → Option DeduplicationGroup
unfolding get
lookup_group fingerprint r = get fingerprint r.groups

-- The findings with these ids that the store still has.
unfoldable pub stored : FindingStore → List String → List CandidateFinding
unfolding get_finding
stored store [] = []
stored store (m ∷ ms) = found (get_finding m store) ++ stored store ms

abbrev pub rebuilt_of_ordered :
    DedupLibrary → DeduplicationGroup → List CandidateFinding → Option DeduplicationGroup
rebuilt_of_ordered lib g [] = none
rebuilt_of_ordered lib g (c ∷ cs) = some (record g {
  canonical_finding_id = c.id;
  member_finding_ids = ids (c ∷ cs);
  occurrence_count = length (c ∷ cs);
  repositories = labels lib (c ∷ cs);
  representative_finding = c;
})

-- What is left of a group without these findings: the same group if it had none of them, a group
-- of the others, or nothing.
unfoldable pub without :
    DedupLibrary → FindingStore → List String → DeduplicationGroup → Option DeduplicationGroup
unfolding stored sorted contains repo_label_for_file
without lib store removed g =
    let remaining = select (λ m. not (contains m removed)) g.member_finding_ids in
    if eqb (length remaining) (length g.member_finding_ids)
    then some g
    else rebuilt_of_ordered lib g (sorted by_id (stored store remaining))

abbrev pub keep_group :
    String → Option DeduplicationGroup → Dict DeduplicationGroup → Dict DeduplicationGroup
keep_group value none rest = rest
keep_group value (some g) rest = (value, g) ∷ rest

-- The loop over the groups, each of which stays in its place or is deleted.
unfoldable pub remove_from_groups :
    DedupLibrary → FindingStore → List String → Dict DeduplicationGroup → Dict DeduplicationGroup
unfolding without
remove_from_groups lib store removed [] = []
remove_from_groups lib store removed ((value, g) ∷ groups) =
    keep_group value (without lib store removed g) (remove_from_groups lib store removed groups)

-- Some group has a member among these findings.
abbrev pub is_changed : List String → DeduplicationGroup → Bool
is_changed removed g = not (
    eqb (length (select (λ m. not (contains m removed)) g.member_finding_ids))
      (length g.member_finding_ids))

-- remove_findings
unfoldable pub remove_findings : DedupLibrary → FindingStore → List String → Registry → Registry
unfolding remove_from_groups values persist_groups contains
remove_findings lib store removed r =
    if any (is_changed removed) (values r.groups)
    then (let groups = remove_from_groups lib store removed r.groups in
        record r { groups = groups; writes = send r.factory (persist_groups groups) r.writes })
    else r

unfoldable pub all_groups : Registry → List DeduplicationGroup
unfolding values
all_groups r = values r.groups

unfoldable pub reset_groups : Registry → Registry
reset_groups r = record r { groups = []; writes = send r.factory (delete_all_groups ∷ []) r.writes }
