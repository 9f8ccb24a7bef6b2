-- ===== src/Outbound/Assembler.antt =====
-- internal/outbound/assembler.go: the text and the headers of a reply.
use agent_layer.Prelude.{String, str_append, ◌==◌, List, [], ◌∷◌, ◌++◌, if◌then◌else◌}
use agent_layer.Prelude.Exec.{Result, ok, err, failure}
use agent_layer.Domain.{Organization, Agent, Inbox, Thread, Message, Contact}
use agent_layer.Text.{Unicode, to_lower, trim_space, has_prefix}
use agent_layer.Text.Join.{join}

pub record ReplyAssemblyInput : Type 0 where
  pub organization : Organization
  pub agent : Agent
  pub inbox : Inbox
  pub thread : Thread
  pub reply_to_message : Message
  pub contact : Contact
  pub body_text : String

pub record ReplyMetadata : Type 0 where
  pub message_id_header : String
  pub subject : String
  pub in_reply_to : String
  pub references : List String

module _ (unicode : Unicode) where
  unfoldable pub reply_subject : String → String
  reply_subject subject =
      if has_prefix (to_lower unicode subject) "re:"
      then subject
      else if trim_space unicode subject == ""
      then "Re:"
      else str_append "Re: " subject

  unfoldable pub format_address : String → String → String
  format_address name email =
      if trim_space unicode name == ""
      then email
      else str_append (str_append (str_append name " <") email) ">"

  -- What AssembleReply returns once its three checks have passed.
  unfoldable pub reply_metadata : String → ReplyAssemblyInput → ReplyMetadata
  reply_metadata message_id input = record {
    message_id_header = message_id;
    subject = reply_subject input.reply_to_message.subject;
    in_reply_to = input.reply_to_message.message_id_header;
    references = input.reply_to_message.references ++ input.reply_to_message.message_id_header ∷ [];
  }

  unfoldable pub raw_reply : ReplyMetadata → ReplyAssemblyInput → String
  unfolding format_address
  raw_reply metadata input =
      join
        (str_append "From: " (format_address input.inbox.display_name input.inbox.email_address)
          ∷ str_append "To: "
              (format_address input.contact.display_name input.contact.email_address)
          ∷ str_append "Subject: " metadata.subject
          ∷ str_append "Message-ID: " metadata.message_id_header
          ∷ str_append "In-Reply-To: " metadata.in_reply_to
          ∷ str_append "References: " (join metadata.references " ")
          ∷ "MIME-Version: 1.0"
          ∷ "Content-Type: text/plain; charset=utf-8"
          ∷ ""
          ∷ input.body_text
          ∷ [])
        "\r\n"

  -- The generator of message ids is called without state: the runtime passes a constant one.
  unfoldable pub assemble_reply : String → ReplyAssemblyInput → Result (String × ReplyMetadata)
  unfolding reply_metadata
  assemble_reply message_id input =
      if input.inbox.email_address == ""
      then err (failure "inbox email address is required")
      else if input.contact.email_address == ""
      then err (failure "contact email address is required")
      else if input.reply_to_message.message_id_header == ""
      then err (failure "reply-to message id header is required")
      else ok (raw_reply (reply_metadata message_id input) input, reply_metadata message_id input)
