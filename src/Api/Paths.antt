-- ===== src/Api/Paths.antt =====
-- internal/api: what the handlers read of a request's path: `splitPath` of thread_handler.go and the
-- functions that take an id out of the path. The separator is one byte, so that an index counts
-- characters here and bytes in the code, and the slices are the same.
use Prim.Native.Char.{Char, code}
use Prim.Native.String.{[] as nil, ◌∷◌ as cons}
use agent_layer.Prelude.{
  ℕ, zero, suc, ◌-◌, String, Bool, ◌==◌, ◌&&◌, List, [], ◌∷◌, ◌++◌, nat_eq, ltb, if◌then◌else◌,
}
use agent_layer.Text.Fields.{cons_first}
use agent_layer.Text.{drop}

abbrev pub is_slash : Char → Bool
is_slash c = nat_eq (code c) 47

-- The first n characters.
unfoldable pub keep : ℕ → String → String
keep zero s = nil
keep (suc n) nil = nil
keep (suc n) (cons c s) = cons c (keep n s)

-- path[start:i]
abbrev pub slice : String → ℕ → ℕ → String
slice path start i = keep (i - start) (drop start path)

-- The segment that ends before `i`, if it is not empty.
abbrev pub append_segment : String → ℕ → ℕ → List String → List String
append_segment path start i raw = if ltb start i then raw ++ slice path start i ∷ [] else raw

-- The loop, where `rest` is path[i:].
unfoldable pub segments_from : String → String → ℕ → ℕ → List String → List String
segments_from path nil i start raw = append_segment path start i raw
segments_from path (cons c rest) i start raw = elim (is_slash c) [
  | Bool.true ↦ segments_from path rest (suc i) (suc i) (append_segment path start i raw)
  | Bool.false ↦ segments_from path rest (suc i) start raw
]

unfoldable pub filter_empty_segments : String → List String
filter_empty_segments path = segments_from path path 0 0 []

unfoldable pub split_path : String → List String
split_path path = if path == "" then [] else filter_empty_segments path

-- The id in a path of two parts, and in one of three with the id in the middle.
abbrev pub second_part : String → List String → String
second_part head [] = ""
second_part head (a ∷ []) = ""
second_part head (a ∷ b ∷ []) = if a == head then b else ""
second_part head (a ∷ b ∷ c ∷ rest) = ""

abbrev pub middle_part : String → String → List String → String
middle_part head last [] = ""
middle_part head last (a ∷ []) = ""
middle_part head last (a ∷ b ∷ []) = ""
middle_part head last (a ∷ b ∷ c ∷ []) = if a == head && c == last then b else ""
middle_part head last (a ∷ b ∷ c ∷ d ∷ rest) = ""

abbrev pub show_part : List String → String
show_part [] = ""
show_part (a ∷ []) = ""
show_part (a ∷ b ∷ []) = ""
show_part (a ∷ b ∷ c ∷ []) = if a == "webhooks" && b == "deliveries" then c else ""
show_part (a ∷ b ∷ c ∷ d ∷ rest) = ""

abbrev pub replay_part : List String → String
replay_part [] = ""
replay_part (a ∷ []) = ""
replay_part (a ∷ b ∷ []) = ""
replay_part (a ∷ b ∷ c ∷ []) = ""
replay_part (a ∷ b ∷ c ∷ d ∷ []) =
    if a == "webhooks" && b == "deliveries" && d == "replay" then c else ""
replay_part (a ∷ b ∷ c ∷ d ∷ e ∷ rest) = ""

unfoldable pub thread_id_from_thread_path : String → String
thread_id_from_thread_path path = second_part "threads" (split_path path)

unfoldable pub contact_id_from_path : String → String
contact_id_from_path path = second_part "contacts" (split_path path)

unfoldable pub suppression_id_from_path : String → String
suppression_id_from_path path = second_part "suppressions" (split_path path)

unfoldable pub thread_id_from_thread_messages_path : String → String
thread_id_from_thread_messages_path path = middle_part "threads" "messages" (split_path path)

unfoldable pub thread_id_from_escalate_path : String → String
thread_id_from_escalate_path path = middle_part "threads" "escalate" (split_path path)

unfoldable pub contact_id_from_memory_path : String → String
contact_id_from_memory_path path = middle_part "contacts" "memory" (split_path path)

unfoldable pub webhook_delivery_id_from_show_path : String → String
webhook_delivery_id_from_show_path path = show_part (split_path path)

unfoldable pub webhook_delivery_id_from_replay_path : String → String
webhook_delivery_id_from_replay_path path = replay_part (split_path path)

-- strings.Trim(path, "/")
unfoldable pub trim_slashes_left : String → String
trim_slashes_left nil = nil
trim_slashes_left (cons c s) =
    let rest = trim_slashes_left s in if is_slash c then rest else cons c s

abbrev pub cons_unslashed : Char → String → String
cons_unslashed c nil = if is_slash c then nil else cons c nil
cons_unslashed c (cons d s) = cons c (cons d s)

unfoldable pub trim_slashes_right : String → String
trim_slashes_right nil = nil
trim_slashes_right (cons c s) = cons_unslashed c (trim_slashes_right s)

-- strings.Split(s, "/")
unfoldable pub split_slashes : String → List String
split_slashes nil = nil ∷ []
split_slashes (cons c s) =
    let rest = split_slashes s in if is_slash c then nil ∷ rest else cons_first c rest

-- threadIDFromPath of reply_handler.go
unfoldable pub thread_id_from_path : String → String
thread_id_from_path path =
    middle_part "threads" "reply" (split_slashes (trim_slashes_left (trim_slashes_right path)))
