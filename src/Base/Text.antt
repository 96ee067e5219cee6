-- ===== src/Base/Text.antt =====
-- Texts.
use Prim.Native.Nat.{ℕ, zero, suc}
use Prim.Native.String.{String}

-- text[:n]
abbrev pub prefix : ℕ → String → String
prefix zero s = ""
prefix (suc n) String.[] = ""
prefix (suc n) (String.◌∷◌ c s) = String.◌∷◌ c (prefix n s)
