-- ===== src/Text/Fields.antt =====
-- strings.Fields of Go's package strings: the parts between runs of white space.
use Prim.Native.Char.{Char}
use Prim.Native.String.{[] as nil, ◌∷◌ as cons}
use agent_layer.Prelude.{String, List, [], ◌∷◌, ◌==◌, if◌then◌else◌}
use agent_layer.Text.{Unicode, space_char}

-- The parts that are not empty.
abbrev pub nonempty : List String → List String
nonempty [] = []
nonempty (part ∷ parts) = let rest = nonempty parts in if part == "" then rest else part ∷ rest

abbrev pub cons_first : Char → List String → List String
cons_first c [] = cons c nil ∷ []
cons_first c (part ∷ parts) = cons c part ∷ parts

module _ (unicode : Unicode) where
  unfoldable pub split_spaces : String → List String
  split_spaces nil = nil ∷ []
  split_spaces (cons c s) =
      let rest = split_spaces s in if space_char unicode c then nil ∷ rest else cons_first c rest

  unfoldable pub fields : String → List String
  unfolding split_spaces
  fields s = nonempty (split_spaces s)
