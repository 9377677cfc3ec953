-- ===== src/Prelude/Text.antt =====
-- Python's operations on `str` that look into the text, by characters.
use Prim.Native.Nat.{ℕ, zero, suc}
use Prim.Native.Char.{code, Char}
use Prim.Native.String
use Prim.Native.String.{String}
use mathlib.Core.Bool.{Bool, true, false, ◌&&◌, ◌||◌}
use mathlib.Core.List.{List, [], ◌∷◌}
use text.Mathlib.Text.{◌==◌}
use multi_stage_agentic_sast.Prelude.Tests.{if◌then◌else◌, eqb}

-- s[:n]
unfoldable pub take_chars : ℕ → String → String
take_chars zero s = ""
take_chars (suc n) String.[] = ""
take_chars (suc n) (String.◌∷◌ c s) = String.◌∷◌ c (take_chars n s)

-- sep.join(parts)
unfoldable pub join : String → List String → String
join sep [] = ""
join sep (p ∷ []) = p
join sep (p ∷ q ∷ ps) = String.◌++◌ p (String.◌++◌ sep (join sep (q ∷ ps)))

abbrev same_char : Char → Char → Bool
same_char c d = eqb (code c) (code d)

-- s.startswith(prefix)
unfoldable pub starts_with : String → String → Bool
starts_with String.[] s = true
starts_with (String.◌∷◌ c p) String.[] = false
starts_with (String.◌∷◌ c p) (String.◌∷◌ d s) = same_char c d && starts_with p s

-- s.endswith(suffix)
unfoldable pub ends_with : String → String → Bool
ends_with suffix String.[] = suffix == ""
ends_with suffix (String.◌∷◌ c s) = suffix == String.◌∷◌ c s || ends_with suffix s

-- part in s
unfoldable pub has_part : String → String → Bool
unfolding starts_with
has_part part String.[] = starts_with part ""
has_part part (String.◌∷◌ c s) = starts_with part (String.◌∷◌ c s) || has_part part s

-- s.split(".")[-1]
unfoldable pub last_part : String → String
unfolding has_part
last_part String.[] = ""
last_part (String.◌∷◌ c s) = if has_part "." (String.◌∷◌ c s) then last_part s else String.◌∷◌ c s
