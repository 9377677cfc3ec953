-- ===== src/Prelude/Datetime.antt =====
-- core/time.py. An aware datetime is its instant, in microseconds of UTC: Python compares aware
-- datetimes by it, and `astimezone` keeps it. A naive one is its wall clock, in microseconds.
use Prim.Native.Nat.{ℕ}
use mathlib.Core.Bool.{Bool, true, false}

pub data Datetime : Type 0 where
  naive aware : ℕ → Datetime

-- `value.tzinfo is not None`
abbrev pub is_aware : Datetime → Bool
is_aware (naive t) = false
is_aware (aware t) = true

-- as_aware_utc
unfoldable pub as_aware_utc : Datetime → Datetime
as_aware_utc (naive t) = aware t
as_aware_utc (aware t) = aware t

-- The number by which datetimes of one kind are compared.
abbrev pub instant : Datetime → ℕ
instant (naive t) = t
instant (aware t) = t
