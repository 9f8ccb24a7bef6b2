-- ===== src/Platform.antt =====
-- internal/platform/idempotency/keys.go, and the parts of Go's runtime that the stores rely on.
-- SHA-256 in hex is a parameter, and so is the order in which `range` visits a map, which Go leaves
-- open: any order that visits every entry once.
use mathlib.Core.List.{Permᴰ}
use agent_layer.Prelude.{String, str_append, List}
use agent_layer.Prelude.Dict.{Dict, values}

pub record Platform : Type 1 where
  pub sha256_hex : String → String
  pub visit : (V : Type 0) → Dict V → List V
  pub visit_perm : (V : Type 0) (d : Dict V) → Permᴰ (visit V d) (values d)

-- scopedKey
unfoldable pub scoped_key : Platform → String → String → String → String
scoped_key platform scope primary secondary = str_append (str_append scope ":") (
    platform.sha256_hex
      (str_append (str_append (str_append (str_append scope ":") primary) ":") secondary))

-- InboundMessageKey
unfoldable pub inbound_message_key : Platform → String → String → String
unfolding scoped_key
inbound_message_key platform inbox_id message_id_header =
    scoped_key platform "inbound" inbox_id message_id_header

-- ReplySubmissionKey
unfoldable pub reply_submission_key : Platform → String → String → String
unfolding scoped_key
reply_submission_key platform thread_id request_id =
    scoped_key platform "reply" thread_id request_id
