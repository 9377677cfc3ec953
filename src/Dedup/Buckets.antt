-- ===== src/Dedup/Buckets.antt =====
-- A bucket has the findings with its fingerprint, in the order in which they were submitted.
use mathlib.Core.List.{append-nil, append_assoc}
use multi_stage_agentic_sast.Dedup.{fill_buckets, DedupLibrary, Bucket, into_bucket, build}
use multi_stage_agentic_sast.Prelude.{
  inl, refl, ap, ◌++◌, none, ◌∷◌, Bool-cases, Option, Bool, sym, eq_iff, ◌==◌, ◌∙◌, String, ◌≡◌, [],
  select, some, inr, List, if◌then◌else◌,
}
use multi_stage_agentic_sast.Prelude.Dict.{get-set_item, get, set_item, Dict}
use multi_stage_agentic_sast.Findings.{CandidateFinding}

abbrev pub has_fingerprint : DedupLibrary → String → CandidateFinding → Bool
has_fingerprint lib v f = (build lib f).value == v

-- A bucket, or none, with more findings at its end.
abbrev pub with_more : DedupLibrary → Option Bucket → List CandidateFinding → Option Bucket
with_more lib none [] = none
with_more lib none (m ∷ ms) = some (build lib m, m ∷ ms)
with_more lib (some (p, members)) ms = some (p, members ++ ms)

with_more-into_bucket :
    (lib : DedupLibrary) (f : CandidateFinding) (o : Option Bucket) (ms : List CandidateFinding)
    → with_more lib (some (into_bucket (build lib f) f o)) ms ≡ with_more lib o (f ∷ ms)
with_more-into_bucket lib f none ms = refl
with_more-into_bucket lib f (some (p, members)) ms =
    ap (λ x. some (p, x)) (append_assoc members (f ∷ []) ms)

with_more-none : (lib : DedupLibrary) (o : Option Bucket) → with_more lib o [] ≡ o
with_more-none lib none = refl
with_more-none lib (some (p, members)) = ap (λ x. some (p, x)) (append-nil members)

pub get-fill_buckets :
    (lib : DedupLibrary) (v : String) (fs : List CandidateFinding) (d : Dict Bucket)
    → get v (fill_buckets lib fs d) ≡ with_more lib (get v d) (select (has_fingerprint lib v) fs)
unfolding fill_buckets
get-fill_buckets lib v [] d = sym (with_more-none lib (get v d))
get-fill_buckets lib v (f ∷ fs) d =
    let k = (build lib f).value in
    let b : Bucket = into_bucket (build lib f) f (get k d) in
    let ms = select (has_fingerprint lib v) fs in
    let above =
      get-fill_buckets lib v fs (set_item k b d)
      ∙ ap (λ o. with_more lib o ms) (get-set_item k v b d) in
    elim (Bool-cases (k == v)) [
      | inl y ↦
          let here = ap (λ (c : Bool). with_more lib (if c then some b else get v d) ms) y in
          let same = ap (λ j. with_more lib (get j d) (f ∷ ms)) ((eq_iff k v).0 y) in
          rw y (above ∙ (here ∙ (with_more-into_bucket lib f (get k d) ms ∙ same)))
      | inr n ↦ rw n (above ∙ ap (λ (c : Bool). with_more lib (if c then some b else get v d) ms) n)
    ]
