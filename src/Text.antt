-- ===== src/Text.antt =====
-- What the program uses of Go's package strings, over the characters of a string. The two tables of
-- package unicode beyond ASCII are a parameter. (A Go string that is not valid UTF-8 is not modelled.)
pub mod Join
pub mod Fields
pub mod Order
use Prim.Native.Char.{Char, char, code, IsScalar}
use Prim.Native.String.{String, [], ◌∷◌}
use Prim.Native.Nat.{Ordering, compare}
use mathlib.Core.Logic.{dite}
use native.Mathlib.Decide.{dec_lt}
use agent_layer.Prelude.{
  ℕ, zero, suc, ◌+◌, ◌<◌, Bool, true, false, ◌&&◌, ◌||◌, ◌==◌, ltb, leb, nat_eq, arith,
  if◌then◌else◌, ◌≡◌,
}

pub record Unicode : Type 0 where
  pub lower : Char → Char
  pub is_space : Char → Bool

below_surrogates : (n : ℕ) → n < 128 → compare n 55296 ≡ Ordering.lt
below_surrogates n h = ground arith

pub ascii-IsScalar : (n : ℕ) → n < 128 → IsScalar n
ascii-IsScalar n h = rw (below_surrogates n h) tt

-- 'a' + (c - 'A') for an upper-case letter of ASCII
unfoldable pub to_ascii_lower : Char → Char
to_ascii_lower c =
    dite (dec_lt (code c) 91) (λ h. char (code c + 32) (ascii-IsScalar (code c + 32) (omega arith)))
      (λ _. c)

module _ (unicode : Unicode) where
  -- unicode.ToLower
  unfoldable pub lower_char : Char → Char
  unfolding to_ascii_lower dec_lt
  lower_char c =
      if ltb (code c) 128
      then (if leb 65 (code c) && leb (code c) 90 then to_ascii_lower c else c)
      else unicode.lower c

  -- unicode.IsSpace
  unfoldable pub space_char : Char → Bool
  space_char c =
      if ltb (code c) 128
      then leb 9 (code c) && leb (code c) 13 || nat_eq (code c) 32
      else unicode.is_space c

  -- strings.ToLower
  unfoldable pub to_lower : String → String
  unfolding lower_char
  to_lower [] = []
  to_lower (c ∷ s) = lower_char c ∷ to_lower s

  unfoldable pub trim_left : String → String
  unfolding space_char
  trim_left [] = []
  trim_left (c ∷ s) = let rest = trim_left s in if space_char c then rest else c ∷ s

  abbrev pub cons_trimmed : Char → String → String
  cons_trimmed c [] = if space_char c then [] else c ∷ []
  cons_trimmed c (d ∷ s) = c ∷ d ∷ s

  unfoldable pub trim_right : String → String
  unfolding space_char
  trim_right [] = []
  trim_right (c ∷ s) = cons_trimmed c (trim_right s)

  -- strings.TrimSpace
  unfoldable pub trim_space : String → String
  unfolding trim_left trim_right
  trim_space s = trim_left (trim_right s)

-- strings.HasPrefix
unfoldable pub has_prefix : String → String → Bool
has_prefix s [] = true
has_prefix [] (d ∷ t) = false
has_prefix (c ∷ s) (d ∷ t) = nat_eq (code c) (code d) && has_prefix s t

-- s[n:] where the first n characters are one byte each
unfoldable pub drop : ℕ → String → String
drop zero s = s
drop (suc n) [] = []
drop (suc n) (c ∷ s) = drop n s

unfoldable pub size : String → ℕ
size [] = 0
size (c ∷ s) = suc (size s)
