-- ===== src/Memory/Messages.antt =====
-- The methods of internal/store/memory/store.go on messages and reply submissions, and the index of
-- inbound messages by inbox and Message-ID.
use agent_layer.Prelude.{String, ◌==◌, ◌||◌, Option, none, some, List, [], ◌∷◌, ◌++◌, if◌then◌else◌}
use agent_layer.Prelude.Exec.{Exec, ok}
use agent_layer.Prelude.Dict
use agent_layer.Prelude.Dict.{Dict}
use agent_layer.Domain.{Thread, Message}
use agent_layer.Platform.{Platform, inbound_message_key}
use agent_layer.Memory.State.{Store, found_or, or_nil}

abbrev pub index_provider : Message → Dict Message → Dict Message
index_provider message d =
    if message.provider_message_id == "" then d else Dict.put d message.provider_message_id message

abbrev pub index_thread : Message → Dict (List String) → Dict (List String)
index_thread message d =
    if message.thread_id == ""
    then d
    else Dict.put d message.thread_id (or_nil (Dict.get d message.thread_id) ++ message.id ∷ [])

-- The first message, in the order of the visit, with this Message-ID, and its thread.
unfoldable pub scan_message_id : Dict Thread → String → List Message → Option Thread
scan_message_id threads message_id [] = none
scan_message_id threads message_id (message ∷ rest) =
    if message.message_id_header == message_id
    then Dict.get threads message.thread_id
    else scan_message_id threads message_id rest

unfoldable pub find_by_provider_message_id : String → Exec Store (Option Message)
find_by_provider_message_id id s = (ok (Dict.get s.messages_by_provider_id id), s)

unfoldable pub get_message_by_id : String → Exec Store Message
get_message_by_id id s = (found_or "message" (Dict.get s.messages_by_id id), s)

unfoldable pub save_reply_submission : String → String → Exec Store Unit
save_reply_submission submission_key message_id s = (
  ok tt,
  record s {
    reply_submissions_by_key = Dict.put s.reply_submissions_by_key submission_key message_id;
  },
)

-- A key that leads to an id, and the message of that id: absent if either is.
abbrev pub by_index : Dict Message → Option String → Option Message
by_index messages none = none
by_index messages (some id) = Dict.get messages id

unfoldable pub find_reply_by_submission_key : String → Exec Store (Option Message)
find_reply_by_submission_key submission_key s =
    (ok (by_index s.messages_by_id (Dict.get s.reply_submissions_by_key submission_key)), s)

module _ (platform : Platform) where
  abbrev pub index_inbound : Message → Dict String → Dict String
  index_inbound message d =
      if message.inbox_id == "" || message.message_id_header == ""
      then d
      else Dict.put d (inbound_message_key platform message.inbox_id message.message_id_header)
          message.id

  -- Create
  unfoldable pub create_message : Message → Exec Store Message
  create_message message s = (
    ok message,
    record s {
      messages_by_id = Dict.put s.messages_by_id message.id message;
      messages_by_inbound_key = index_inbound message s.messages_by_inbound_key;
      messages_by_provider_id = index_provider message s.messages_by_provider_id;
      messages_by_thread_id = index_thread message s.messages_by_thread_id;
    },
  )

  unfoldable pub save_message : Message → Exec Store Message
  save_message message s = (
    ok message,
    record s {
      messages_by_id = Dict.put s.messages_by_id message.id message;
      messages_by_inbound_key = index_inbound message s.messages_by_inbound_key;
      messages_by_provider_id = index_provider message s.messages_by_provider_id;
    },
  )

  unfoldable pub find_inbound_by_header : String → String → Exec Store (Option Message)
  find_inbound_by_header inbox_id message_id_header s = (
    ok (
        by_index s.messages_by_id (
          Dict.get s.messages_by_inbound_key
            (inbound_message_key platform inbox_id message_id_header))),
    s,
  )

  unfoldable pub find_by_message_id : String → Exec Store (Option Thread)
  unfolding scan_message_id
  find_by_message_id message_id s =
      (ok (scan_message_id s.threads_by_id message_id (platform.visit Message s.messages_by_id)), s)
