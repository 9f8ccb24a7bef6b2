-- ===== src/Prelude/Texts.antt =====
-- The Boolean test on strings, at strings that differ.
use Prim.Native.String.{String}
use mathlib.Core.Path.{◌≡◌}
use mathlib.Core.Logic.{◌≢◌}
use mathlib.Core.Bool.{false}
use native.Mathlib.Omega.{arith}
use text.Mathlib.Text.{◌==◌}
use text.Mathlib.TextEquality.{eq_iff}

pub str_ne : (a b : String) → a ≢ b → (a == b) ≡ false
str_ne a b h = ground (arith, eq_iff a b)

pub ne_str : (a b : String) → (a == b) ≡ false → a ≢ b
ne_str a b h e = let t = (eq_iff a b).1 e in cc
