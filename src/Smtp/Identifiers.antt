-- ===== src/Smtp/Identifiers.antt =====
-- internal/smtpedge/identifiers.go: the ids of sessions and the keys of raw messages. The formats of
-- times are parameters, and so is what the random source gives: the hexadecimal digits, or none.
use Prim.Native.Char.{Char, code}
use Prim.Native.String.{[], ◌∷◌}
use agent_layer.Prelude.{
  ℕ, zero, suc, String, str_append, Bool, ◌&&◌, ◌||◌, ◌==◌, Option, none, some, leb, nat_eq,
  if◌then◌else◌,
}
use agent_layer.Domain.{Time, Inbox}
use agent_layer.Text.{Unicode, trim_space, to_ascii_lower}

abbrev pub between : ℕ → ℕ → Char → Bool
between a b c = leb a (code c) && leb (code c) b

-- The byte of the hyphen.
abbrev pub is_hyphen : Char → Bool
is_hyphen c = nat_eq (code c) 45

-- One turn of the loop over the characters.
unfoldable pub sanitized : Char → Char
sanitized c =
    if between 97 122 c
    then c
    else if between 65 90 c
    then to_ascii_lower c
    else if between 48 57 c
    then c
    else if is_hyphen c || nat_eq (code c) 95
    then c
    else "-"

unfoldable pub sanitize_all : String → String
unfolding sanitized
sanitize_all [] = []
sanitize_all (c ∷ s) = sanitized c ∷ sanitize_all s

-- strings.Trim(s, "-")
unfoldable pub trim_hyphens_left : String → String
trim_hyphens_left [] = []
trim_hyphens_left (c ∷ s) = let rest = trim_hyphens_left s in if is_hyphen c then rest else c ∷ s

abbrev pub cons_unhyphened : Char → String → String
cons_unhyphened c [] = if is_hyphen c then [] else c ∷ []
cons_unhyphened c (d ∷ s) = c ∷ d ∷ s

unfoldable pub trim_hyphens_right : String → String
trim_hyphens_right [] = []
trim_hyphens_right (c ∷ s) = cons_unhyphened c (trim_hyphens_right s)

-- randomHex(n): strings.Repeat("0", n*2) if the random source fails.
unfoldable pub zeros : ℕ → String
zeros zero = []
zeros (suc n) = "0" ∷ "0" ∷ zeros n

unfoldable pub random_hex : ℕ → Option String → String
unfolding zeros
random_hex n none = zeros n
random_hex n (some hex) = hex

module _ (unicode : Unicode) where
  unfoldable pub sanitize_path_segment : String → String
  unfolding sanitize_all trim_hyphens_left trim_hyphens_right
  sanitize_path_segment value =
      let trimmed = trim_space unicode value in
      if trimmed == "" then "" else trim_hyphens_left (trim_hyphens_right (sanitize_all trimmed))

  abbrev pub or_unknown : String → String
  or_unknown s = if s == "" then "unknown" else s

  -- `date` is the time in the layout 2006/01/02.
  unfoldable pub new_raw_message_object_key :
      (Time → String) → Time → Inbox → Option String → String
  unfolding sanitize_path_segment random_hex
  new_raw_message_object_key date now inbox hex =
      str_append
        (str_append
          (str_append
            (str_append (str_append (str_append "raw/" (date now)) "/")
              (or_unknown (sanitize_path_segment inbox.id)))
            "/")
          (random_hex 12 hex))
        ".eml"

-- `stamp` is the time in the layout 20060102T150405.000000000Z.
unfoldable pub new_session_id : (Time → String) → Time → Option String → String
unfolding random_hex
new_session_id stamp now hex =
    str_append (str_append (str_append "smtp-" (stamp now)) "-") (random_hex 6 hex)
