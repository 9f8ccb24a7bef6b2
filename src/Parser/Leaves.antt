-- ===== src/Parser/Leaves.antt =====
-- What the parts of a message hold, as a list: what internal/parser/parser.go collects while it walks
-- the parts.
use agent_layer.Prelude.{String, true, false, none, some, List, [], ◌∷◌, ◌++◌, ◌==◌, if◌then◌else◌}
use agent_layer.Prelude.Exec.{Result, ok, err}
use agent_layer.Domain.{Bytes}
use agent_layer.Core.{ParsedMessage, ParsedAttachment}
use agent_layer.Text.{Unicode}
use agent_layer.Parser.Body.{
  Body, Parts, content, Mime, read_all, read_decoded_body, is_attachment, attachment, Kind, kind,
}

-- What one part holds: an attachment, a body of a known type, or one whose type cannot be read.
pub data Leaf : Type 0 where
  attached : ParsedAttachment → Leaf
  single : String → Bytes → Leaf
  untyped : Bytes → Leaf

abbrev pub append_leaves : Result (List Leaf) → Result (List Leaf) → Result (List Leaf)
append_leaves (err e) rest = err e
append_leaves (ok leaves) (err e) = err e
append_leaves (ok leaves) (ok rest) = ok (leaves ++ rest)

abbrev pub read_leaf : (Bytes → Leaf) → Result Bytes → Result (List Leaf)
read_leaf leaf (err e) = err e
read_leaf leaf (ok payload) = ok (leaf payload ∷ [])

-- The attachments, in order.
unfoldable pub attachments_of : List Leaf → List ParsedAttachment
attachments_of [] = []
attachments_of (Leaf.attached a ∷ rest) = a ∷ attachments_of rest
attachments_of (Leaf.single media_type payload ∷ rest) = attachments_of rest
attachments_of (Leaf.untyped payload ∷ rest) = attachments_of rest

module _ (unicode : Unicode) (mime : Mime) where
  -- The parts in order, up to the first that cannot be read.
  unfoldable mutual
    unfolding read_decoded_body read_all attachment

    pub leaves : String → String → Body → Result (List Leaf)
    leaves content_type transfer_encoding (Body.body c parts) =
        elim (kind (mime.media_type content_type)) [
          | Kind.unreadable ↦ read_leaf Leaf.untyped (read_all c)
          | Kind.multipart boundary ↦ leaves_of_parts (parts boundary)
          | Kind.leaf media_type ↦
              read_leaf (Leaf.single media_type)
                (read_decoded_body unicode mime c transfer_encoding)
        ]

    pub leaves_of_parts : Parts → Result (List Leaf)
    leaves_of_parts (Parts.end none) = ok []
    leaves_of_parts (Parts.end (some e)) = err e
    leaves_of_parts (Parts.part header inner rest) = elim (is_attachment unicode mime header) [
      | true ↦
          append_leaves
            (read_leaf (λ payload. Leaf.attached (attachment unicode mime header payload))
              (read_decoded_body unicode mime (content inner) header.transfer_encoding))
            (leaves_of_parts rest)
      | false ↦
          append_leaves (leaves header.content_type header.transfer_encoding inner)
            (leaves_of_parts rest)
    ]

module _ (mime : Mime) where
  -- The HTML body: the first that is not empty.
  unfoldable pub html_of : String → List Leaf → String
  html_of html [] = html
  html_of html (Leaf.attached a ∷ rest) = html_of html rest
  html_of html (Leaf.untyped payload ∷ rest) = html_of html rest
  html_of html (Leaf.single media_type payload ∷ rest) =
      html_of
        (if media_type == "text/html"
          then (if html == "" then mime.text payload else html)
          else html)
        rest

  -- The text body: the first that is not empty, unless a body of unknown type comes later.
  unfoldable pub text_of : String → List Leaf → String
  text_of text [] = text
  text_of text (Leaf.attached a ∷ rest) = text_of text rest
  text_of text (Leaf.untyped payload ∷ rest) = text_of (mime.text payload) rest
  text_of text (Leaf.single media_type payload ∷ rest) =
      text_of
        (if media_type == "text/plain"
          then (if text == "" then mime.text payload else text)
          else text)
        rest

  abbrev pub collected : List Leaf → ParsedMessage → ParsedMessage
  collected ls parsed = record parsed {
    text_body = text_of parsed.text_body ls;
    html_body = html_of parsed.html_body ls;
    attachments = parsed.attachments ++ attachments_of ls;
  }

  abbrev pub collect : ParsedMessage → Result (List Leaf) → Result ParsedMessage
  collect parsed (err e) = err e
  collect parsed (ok ls) = ok (collected ls parsed)
