-- ===== src/Parser/Message.antt =====
-- internal/parser/parser.go: `Parse` and the parts of a header. The packages net/mail and mime are
-- parameters.
use agent_layer.Prelude.{String, Option, none, some, List, [], ◌∷◌, ◌==◌, if◌then◌else◌, map}
use agent_layer.Prelude.Dict.{Dict}
use agent_layer.Prelude.Exec.{Exec, Result, ok, err, ◌>>=◌}
use agent_layer.Domain.{Bytes}
use agent_layer.Core.{StoredInboundMessage, ParsedMessage, ParsedAddress, MessageParser}
use agent_layer.Text.{Unicode, trim_space}
use agent_layer.Text.Fields.{fields}
use agent_layer.Parser.Subject.{normalize_subject}
use agent_layer.Parser.Body.{Body, Mime, populate}

-- mail.Message: `header` is the Get of its header.
pub record MailMessage : Type 0 where
  pub header : String → String
  pub raw_headers : Dict (List String)
  pub body : Body

pub record MailAddress : Type 0 where
  pub name : String
  pub address : String

-- mail.ReadMessage, mail.ParseAddressList and mime.WordDecoder.DecodeHeader; none is an error.
pub record Mail : Type 0 where
  pub read_message : Bytes → Result MailMessage
  pub parse_address_list : String → Option (List MailAddress)
  pub decode_words : String → Option String

abbrev pub or_else : {A : Type 0} → A → Option A → A
or_else a none = a
or_else a (some b) = b

abbrev pub zero_address : ParsedAddress
zero_address = record { email = ""; display_name = "" }

abbrev pub first_address : List ParsedAddress → ParsedAddress
first_address [] = zero_address
first_address (a ∷ rest) = a

module _ (unicode : Unicode) (mime : Mime) (mail : Mail) where
  unfoldable pub decode_header : String → String
  decode_header value =
      if trim_space unicode value == "" then "" else or_else value (mail.decode_words value)

  unfoldable pub parsed_address : MailAddress → ParsedAddress
  unfolding decode_header
  parsed_address a = record { email = a.address; display_name = decode_header a.name }

  unfoldable pub parse_address_list : String → List ParsedAddress
  unfolding parsed_address
  parse_address_list value =
      if trim_space unicode value == ""
      then []
      else map parsed_address (or_else [] (mail.parse_address_list value))

  unfoldable pub parse_single_address : String → ParsedAddress
  unfolding parse_address_list
  parse_single_address value = first_address (parse_address_list value)

  -- The fields that Parse sets before it walks the body.
  unfoldable pub parsed_header : MailMessage → ParsedMessage
  unfolding decode_header parse_address_list parse_single_address
  parsed_header m = record {
    message_id_header = m.header "Message-ID";
    in_reply_to = m.header "In-Reply-To";
    references = fields unicode (m.header "References");
    subject = decode_header (m.header "Subject");
    subject_normalized = normalize_subject unicode (decode_header (m.header "Subject"));
    text_body = "";
    html_body = "";
    from = parse_single_address (m.header "From");
    reply_to = parse_address_list (m.header "Reply-To");
    to = parse_address_list (m.header "To");
    cc = parse_address_list (m.header "Cc");
    attachments = [];
    raw_headers = m.raw_headers;
  }

  -- Parse, once the raw message was read from its store.
  unfoldable pub parse_raw : Bytes → Result ParsedMessage
  unfolding parsed_header
  parse_raw raw = elim (mail.read_message raw) [
    | err e ↦ err e
    | ok m ↦
        populate unicode mime (parsed_header m) (m.header "Content-Type")
          (m.header "Content-Transfer-Encoding") m.body
  ]

  module _ {S : Type 0} where
    unfoldable pub parse : (String → Exec S Bytes) → StoredInboundMessage → Exec S ParsedMessage
    unfolding parse_raw
    parse get message = do raw ← get message.receipt.raw_message_object_key; λ s. (parse_raw raw, s)

    -- parser.New
    abbrev pub new : (String → Exec S Bytes) → MessageParser S
    new get = record { parse = parse get }
