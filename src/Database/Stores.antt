-- ===== src/Database/Stores.antt =====
-- The table behind FindingStore (backend/app/validate/store.py), and its reload by set_factory.
use multi_stage_agentic_sast.Findings.Store
use multi_stage_agentic_sast.Findings.Store.{
  FindingStore, add_report, clear, add_all, remove_finding,
}
use multi_stage_agentic_sast.Prelude.{
  send, ◌++◌, false, refl, ◌≡◌, ◌∙◌, [], List, String, Bool, ◌∷◌, ap, true, some,
}
use multi_stage_agentic_sast.Prelude.Dict.{IsUnique-pop, IsUnique-set_item, Dict, IsUnique, get}
use multi_stage_agentic_sast.Database.{
  Codec, db_upsert, rehydrate, db_delete, db_delete_all, IsListing,
}
use multi_stage_agentic_sast.Findings.{CandidateFinding, ScanReport}
use multi_stage_agentic_sast.Database.Mirror.{
  dump_all, dump_all-set_item, rehydrate-dump_all, dump_all-pop,
}

module _ {P : Type 0} (c : Codec CandidateFinding P) where
  -- A write to the table of findings.
  unfoldable pub write_finding : Store.Write → Dict P → Dict P
  unfolding db_upsert db_delete db_delete_all
  write_finding (Store.Write.upsert_finding key f) rows = db_upsert c true key f rows
  write_finding (Store.Write.delete_finding key) rows = db_delete c true key rows
  write_finding Store.Write.delete_all rows = db_delete_all c true rows

  unfoldable pub write_findings : List Store.Write → Dict P → Dict P
  unfolding write_finding
  write_findings [] rows = rows
  write_findings (w ∷ ws) rows = write_findings ws (write_finding w rows)

  write_findings-append :
      (xs ys : List Store.Write) (rows : Dict P)
      → write_findings (xs ++ ys) rows ≡ write_findings ys (write_findings xs rows)
  unfolding write_findings
  write_findings-append [] ys rows = refl
  write_findings-append (x ∷ xs) ys rows = write_findings-append xs ys (write_finding x rows)

  -- The rows are those of the cache.
  pub record IsMirrored (s : FindingStore) : Type 0 where
    pub configured : s.factory ≡ true
    pub unique : IsUnique s.findings
    pub mirrored : write_findings s.writes [] ≡ dump_all c s.findings

-- A store with a factory, from an empty table, after any of its operations.
pub data Used : FindingStore → Type 0 where
  unused : Used (record { findings = []; factory = true; writes = [] })
  added : {s : FindingStore} (f : CandidateFinding) → Used s → Used (Store.add f s)
  reported : {s : FindingStore} (r : ScanReport) → Used s → Used (add_report r s)
  removed : {s : FindingStore} (id : String) → Used s → Used (remove_finding id s)
  cleared : {s : FindingStore} → Used s → Used (clear s)

module _ {P : Type 0} (c : Codec CandidateFinding P) where
  send-true : {W : Type 0} (b : Bool) (new old : List W) → b ≡ true → send b new old ≡ old ++ new
  send-true true new old h = refl
  send-true false new old h = absurd (cc h)

  -- One write more.
  rows-send :
      (s : FindingStore) (w : Store.Write)
      → IsMirrored c s
      → write_findings c (send s.factory (w ∷ []) s.writes) []
        ≡ write_finding c w (dump_all c s.findings)
  unfolding write_findings
  rows-send s w h =
      ap (λ ws. write_findings c ws []) (send-true s.factory (w ∷ []) s.writes h.configured)
      ∙ (write_findings-append c s.writes (w ∷ []) [] ∙ ap (write_finding c w) h.mirrored)

  IsMirrored-add :
      (f : CandidateFinding) (s : FindingStore) → IsMirrored c s → IsMirrored c (Store.add f s)
  unfolding Store.add write_finding db_upsert
  IsMirrored-add f s h = record {
    configured = h.configured;
    unique = IsUnique-set_item f.id f s.findings h.unique;
    mirrored =
        rows-send s (Store.Write.upsert_finding f.id f) h ∙ dump_all-set_item c f.id f s.findings;
  }

  IsMirrored-add_all :
      (fs : List CandidateFinding) (s : FindingStore) → IsMirrored c s → IsMirrored c (add_all fs s)
  unfolding add_all
  IsMirrored-add_all [] s h = h
  IsMirrored-add_all (f ∷ fs) s h = IsMirrored-add_all fs (Store.add f s) (IsMirrored-add f s h)

  IsMirrored-remove :
      (id : String) (s : FindingStore) → IsMirrored c s → IsMirrored c (remove_finding id s)
  unfolding remove_finding write_finding db_delete
  IsMirrored-remove id s h = record {
    configured = h.configured;
    unique = IsUnique-pop id s.findings h.unique;
    mirrored = rows-send s (Store.Write.delete_finding id) h ∙ dump_all-pop c id s.findings;
  }

  IsMirrored-clear : (s : FindingStore) → IsMirrored c s → IsMirrored c (clear s)
  unfolding clear write_finding db_delete_all
  IsMirrored-clear s h = record {
    configured = h.configured;
    unique = tt;
    mirrored = rows-send s Store.Write.delete_all h;
  }

  IsMirrored-Used : {s : FindingStore} → Used s → IsMirrored c s
  unfolding add_report write_findings
  IsMirrored-Used unused = record { configured = refl; unique = tt; mirrored = refl }
  IsMirrored-Used (added {s = s} f u) = IsMirrored-add f s (IsMirrored-Used u)
  IsMirrored-Used (reported {s = s} r u) = IsMirrored-add_all r.findings s (IsMirrored-Used u)
  IsMirrored-Used (removed {s = s} id u) = IsMirrored-remove id s (IsMirrored-Used u)
  IsMirrored-Used (cleared {s = s} u) = IsMirrored-clear s (IsMirrored-Used u)

-- When a payload is validated as the model that it was dumped from, and a query for all rows gives
-- every row of the table once, in whatever order, then after any use of a finding store with a
-- database the rows that it wrote are reloaded without an error as a cache that holds the same
-- findings under the same ids, each once: a restart loses nothing and adds nothing.
pub reload_restores_findings :
    {P : Type 0} (c : Codec CandidateFinding P) (query_all : Dict P → Dict P)
    → ((f : CandidateFinding) → c.validate (c.dump f) ≡ some f)
    → IsListing query_all
    → {s : FindingStore} → Used s
    → (loaded : Dict CandidateFinding) × (rehydrate c true query_all (write_findings c s.writes [])
        ≡ some loaded)
      × IsUnique loaded
      × ((k : String) → get k loaded ≡ get k s.findings)
reload_restores_findings c query_all lawful lists {s} u =
    let h = IsMirrored-Used c u in
    let (loaded, same, unique, entries) =
      rehydrate-dump_all c lawful query_all s.findings lists h.unique in
    (loaded, ap (rehydrate c true query_all) h.mirrored ∙ same, unique, entries)
