-- ===== src/Text/Join.antt =====
-- strings.Join of Go's package strings.
use agent_layer.Prelude.{String, str_append, List, [], ◌∷◌}

unfoldable pub join : List String → String → String
join [] sep = ""
join (x ∷ []) sep = x
join (x ∷ y ∷ xs) sep = str_append (str_append x sep) (join (y ∷ xs) sep)
