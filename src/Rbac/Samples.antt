-- ===== src/Rbac/Samples.antt =====
-- A manager who approves: the inputs of the examples below.
use multi_stage_agentic_sast.Rbac.{
  manager, User, approve, developer, scan, require_permission, has_permission, true,
}
use multi_stage_agentic_sast.Prelude.Exec.{ok}
use multi_stage_agentic_sast.Prelude.{◌≡◌, refl}
use multi_stage_agentic_sast.Prelude.Dict.{contains}
use multi_stage_agentic_sast.Prelude.Datetime.{aware}
use multi_stage_agentic_sast.Rbac.Areas.{
  decision_needs_manager, works_in, area, permissions_by_area,
}

abbrev mia : User
mia = record {
  id = "u1";
  username = "mia";
  display_name = "Mia";
  password_hash = "x";
  role = manager;
  is_active = true;
  created_at = aware 0;
}

permissions_by_area_example : has_permission developer scan ≡ works_in developer (area scan)
permissions_by_area_example = permissions_by_area developer scan

mia_passes : require_permission approve mia ≡ ok mia
unfolding require_permission has_permission contains
mia_passes = refl

decision_needs_manager_example : (mia.role ≡ manager) × (mia ≡ mia)
decision_needs_manager_example = decision_needs_manager approve mia mia refl mia_passes
