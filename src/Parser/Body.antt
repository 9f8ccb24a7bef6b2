-- ===== src/Parser/Body.antt =====
-- internal/parser/parser.go: `populateBodiesAndAttachments`, which walks the parts of a message. The
-- packages mime, mime/multipart, encoding/base64 and mime/quotedprintable are parameters.
use agent_layer.Prelude.{
  String, Bool, true, false, Option, none, some, [], ◌∷◌, ◌++◌, ◌==◌, if◌then◌else◌, length,
}
use agent_layer.Prelude.Int.{pos}
use agent_layer.Prelude.Exec.{Error, Result, ok, err}
use agent_layer.Domain.{Bytes}
use agent_layer.Core.{ParsedMessage, ParsedAttachment}
use agent_layer.Text.{Unicode, to_lower, trim_space, has_prefix}

-- What reading gives: the bytes up to the end, or to an error.
pub record Content : Type 0 where
  pub bytes : Bytes
  pub failed : Option Error

pub record PartHeader : Type 0 where
  pub content_type : String
  pub disposition : String
  pub transfer_encoding : String
  pub content_id : String
  pub file_name : String

-- A body: its content and, for a boundary, the parts that a multipart reader finds in it, in order,
-- up to the end or to an error. A part is shorter than the body, so that the nesting ends.
mutual
  pub data Body : Type 0 where
    body : Content → (String → Parts) → Body

  pub data Parts : Type 0 where
    end : Option Error → Parts
    part : PartHeader → Body → Parts → Parts

abbrev pub content : Body → Content
content (Body.body c parts) = c

-- `media_type` is mime.ParseMediaType: the type and the parameter boundary, or none for an error. The
-- decoders read all of a content; `text` is the conversion of bytes to a string.
pub record Mime : Type 0 where
  pub media_type : String → Option (String × String)
  pub base64 : Content → Result Bytes
  pub quoted_printable : Content → Result Bytes
  pub text : Bytes → String

-- io.ReadAll
unfoldable pub read_all : Content → Result Bytes
read_all c = elim c.failed [ none ↦ ok c.bytes | some e ↦ err e ]

-- What a content type asks for, by ParseMediaType: a type that cannot be read, a multipart type with
-- its boundary, or another type.
pub data Kind : Type 0 where
  unreadable : Kind
  multipart : String → Kind
  leaf : String → Kind

unfoldable pub kind : Option (String × String) → Kind
kind none = Kind.unreadable
kind (some (media_type, boundary)) =
    if media_type == ""
    then Kind.unreadable
    else if has_prefix media_type "multipart/"
    then Kind.multipart boundary
    else Kind.leaf media_type

module _ (unicode : Unicode) (mime : Mime) where
  unfoldable pub read_decoded_body : Content → String → Result Bytes
  unfolding read_all
  read_decoded_body c transfer_encoding =
      let encoding = to_lower unicode (trim_space unicode transfer_encoding) in
      if encoding == "base64"
      then mime.base64 c
      else if encoding == "quoted-printable"
      then mime.quoted_printable c
      else read_all c

  abbrev pub type_or : String → Option (String × String) → String
  type_or content_type none = content_type
  type_or content_type (some (media_type, boundary)) = media_type

  unfoldable pub media_type_from_header : String → String
  media_type_from_header content_type = type_or content_type (mime.media_type content_type)

  abbrev pub is_attachment : PartHeader → Bool
  is_attachment header = has_prefix (to_lower unicode header.disposition) "attachment"

  unfoldable pub attachment : PartHeader → Bytes → ParsedAttachment
  unfolding media_type_from_header
  attachment header payload = record {
    file_name = header.file_name;
    content_type = media_type_from_header header.content_type;
    object_key = "";
    size_bytes = pos (length payload);
    content_id = header.content_id;
    content_disposition = header.disposition;
  }

  abbrev pub add_attachment : ParsedAttachment → ParsedMessage → ParsedMessage
  add_attachment a parsed = record parsed { attachments = parsed.attachments ++ a ∷ [] }

  -- The switch on the media type.
  unfoldable pub set_body : String → Bytes → ParsedMessage → ParsedMessage
  set_body media_type payload parsed =
      if media_type == "text/plain"
      then (if parsed.text_body == ""
          then record parsed { text_body = mime.text payload }
          else parsed)
      else if media_type == "text/html"
      then (if parsed.html_body == ""
          then record parsed { html_body = mime.text payload }
          else parsed)
      else parsed

  -- A body whose type cannot be read.
  unfoldable pub populate_untyped : ParsedMessage → Content → Result ParsedMessage
  unfolding read_all
  populate_untyped parsed c = elim (read_all c) [
    | err e ↦ err e
    | ok payload ↦ ok (record parsed { text_body = mime.text payload })
  ]

  unfoldable pub populate_single : ParsedMessage → String → String → Content → Result ParsedMessage
  unfolding set_body read_decoded_body
  populate_single parsed media_type transfer_encoding c =
      elim (read_decoded_body c transfer_encoding) [
        | err e ↦ err e
        | ok payload ↦ ok (set_body media_type payload parsed)
      ]

  unfoldable mutual
    unfolding populate_untyped populate_single attachment read_decoded_body

    pub populate : ParsedMessage → String → String → Body → Result ParsedMessage
    populate parsed content_type transfer_encoding (Body.body c parts) =
        elim (kind (mime.media_type content_type)) [
          | Kind.unreadable ↦ populate_untyped parsed c
          | Kind.multipart boundary ↦ populate_parts parsed (parts boundary)
          | Kind.leaf media_type ↦ populate_single parsed media_type transfer_encoding c
        ]

    pub populate_parts : ParsedMessage → Parts → Result ParsedMessage
    populate_parts parsed (Parts.end none) = ok parsed
    populate_parts parsed (Parts.end (some e)) = err e
    populate_parts parsed (Parts.part header inner rest) = elim (is_attachment header) [
      | true ↦ elim (read_decoded_body (content inner) header.transfer_encoding) [
        | err e ↦ err e
        | ok payload ↦ populate_parts (add_attachment (attachment header payload) parsed) rest
      ]
      | false ↦ elim (populate parsed header.content_type header.transfer_encoding inner) [
        | err e ↦ err e
        | ok populated ↦ populate_parts populated rest
      ]
    ]
