-- ===== src/Verdicts.antt =====
-- The verdicts of the stages VALIDATE and PROVE (backend/app/validate/models.py, prove/models.py).
pub data Verdict : Type 0 where
  true_positive false_positive uncertain : Verdict

pub data ProofStatus : Type 0 where
  verified not_verified blocked error : ProofStatus
