-- ===== src/Parser/Collects.antt =====
-- internal/parser/parser.go: walking the parts of a message, against the list of what they hold.
use mathlib.Core.List.{append_assoc, append-nil}
use agent_layer.Prelude.{
  String, true, false, none, some, List, [], ◌∷◌, ◌++◌, ◌==◌, ◌≡◌, refl, sym, ap, ◌∙◌, Bool-cases,
  ◌⊎◌, eq_iff, inl, inr,
}
use agent_layer.Prelude.Exec.{Result, Result-cases, ok, err}
use agent_layer.Domain.{Bytes}
use agent_layer.Core.{ParsedMessage}
use agent_layer.Text.{Unicode}
use agent_layer.Parser.Body.{
  Content, PartHeader, Body, Parts, content, Mime, read_all, read_decoded_body, is_attachment,
  attachment, add_attachment, set_body, populate_untyped, populate_single, Kind, kind, populate,
  populate_parts,
}
use agent_layer.Parser.Leaves.{
  Leaf, append_leaves, read_leaf, leaves, leaves_of_parts, attachments_of, html_of, text_of,
  collected, collect,
}

Kind-cases :
    (k : Kind)
    → (k ≡ Kind.unreadable)
      ⊎ (((b : String) × (k ≡ Kind.multipart b)) ⊎ ((m : String) × (k ≡ Kind.leaf m)))
Kind-cases Kind.unreadable = inl refl
Kind-cases (Kind.multipart b) = inr (inl (b, refl))
Kind-cases (Kind.leaf m) = inr (inr (m, refl))

module _ (unicode : Unicode) (mime : Mime) where
  attachments_of-append :
      (ls rest : List Leaf) → attachments_of (ls ++ rest) ≡ attachments_of ls ++ attachments_of rest
  unfolding attachments_of
  attachments_of-append [] rest = refl
  attachments_of-append (Leaf.attached a ∷ ls) rest =
      ap (λ l. a ∷ l) (attachments_of-append ls rest)
  attachments_of-append (Leaf.single m p ∷ ls) rest = attachments_of-append ls rest
  attachments_of-append (Leaf.untyped p ∷ ls) rest = attachments_of-append ls rest

  html_of-append :
      (ls rest : List Leaf) (html : String)
      → html_of mime html (ls ++ rest) ≡ html_of mime (html_of mime html ls) rest
  unfolding html_of
  html_of-append [] rest html = refl
  html_of-append (Leaf.attached a ∷ ls) rest html = html_of-append ls rest html
  html_of-append (Leaf.single m p ∷ ls) rest html = html_of-append ls rest _
  html_of-append (Leaf.untyped p ∷ ls) rest html = html_of-append ls rest html

  text_of-append :
      (ls rest : List Leaf) (text : String)
      → text_of mime text (ls ++ rest) ≡ text_of mime (text_of mime text ls) rest
  unfolding text_of
  text_of-append [] rest text = refl
  text_of-append (Leaf.attached a ∷ ls) rest text = text_of-append ls rest text
  text_of-append (Leaf.single m p ∷ ls) rest text = text_of-append ls rest _
  text_of-append (Leaf.untyped p ∷ ls) rest text = text_of-append ls rest _

  collected-append :
      (ls rest : List Leaf) (parsed : ParsedMessage)
      → collected mime (ls ++ rest) parsed ≡ collected mime rest (collected mime ls parsed)
  collected-append ls rest parsed i = record parsed {
    text_body = text_of-append ls rest parsed.text_body i;
    html_body = html_of-append ls rest parsed.html_body i;
    attachments =
        (ap (λ l. parsed.attachments ++ l) (attachments_of-append ls rest)
            ∙ sym (append_assoc parsed.attachments (attachments_of ls) (attachments_of rest)))
          i;
  }

  collect-append :
      (ls : List Leaf) (r : Result (List Leaf)) (parsed : ParsedMessage)
      → collect mime (collected mime ls parsed) r ≡ collect mime parsed (append_leaves (ok ls) r)
  collect-append ls (err e) parsed = refl
  collect-append ls (ok rest) parsed = ap ok (sym (collected-append ls rest parsed))

  collected-none : (parsed : ParsedMessage) → parsed ≡ collected mime [] parsed
  unfolding attachments_of text_of html_of
  collected-none parsed i = record parsed { attachments = sym (append-nil parsed.attachments) i }

  single-collected :
      (media_type : String) (payload : Bytes) (parsed : ParsedMessage)
      → set_body unicode mime media_type payload parsed
        ≡ collected mime (Leaf.single media_type payload ∷ []) parsed
  unfolding set_body attachments_of text_of html_of
  single-collected m p parsed = elim (Bool-cases (m == "text/plain")) [
    | inl a ↦
        rw ((eq_iff m "text/plain").0 a, append-nil parsed.attachments)
          (elim (Bool-cases (parsed.text_body == "")) [ inl b ↦ rw b refl | inr b ↦ rw b refl ])
    | inr a ↦
        rw (a, append-nil parsed.attachments)
          (elim (Bool-cases (m == "text/html")) [
            | inr h ↦ rw h refl
            | inl h ↦ rw h (elim (Bool-cases (parsed.html_body == "")) [
              | inl b ↦ rw b refl
              | inr b ↦ rw b refl
            ])
          ])
  ]

  untyped-collect :
      (parsed : ParsedMessage) (c : Content)
      → populate_untyped unicode mime parsed c
        ≡ collect mime parsed (read_leaf Leaf.untyped (read_all c))
  unfolding populate_untyped attachments_of text_of html_of
  untyped-collect parsed c = elim (Result-cases (read_all c)) [
    | inl (x, e) ↦ rw (populate_untyped, e) refl
    | inr (payload, e) ↦ rw (populate_untyped, e, append-nil parsed.attachments) refl
  ]

  single-collect :
      (parsed : ParsedMessage) (media_type transfer_encoding : String) (c : Content)
      → populate_single unicode mime parsed media_type transfer_encoding c
        ≡ collect mime parsed (
            read_leaf (Leaf.single media_type) (read_decoded_body unicode mime c transfer_encoding))
  unfolding populate_single
  single-collect parsed m t c = elim (Result-cases (read_decoded_body unicode mime c t)) [
    | inl (x, e) ↦ rw (populate_single, e) refl
    | inr (payload, e) ↦ rw (populate_single, e) (ap ok (single-collected m payload parsed))
  ]

  populate-kind :
      (parsed : ParsedMessage) (content_type t : String) (c : Content) (parts : String → Parts)
      → populate unicode mime parsed content_type t (Body.body c parts)
        ≡ elim (kind (mime.media_type content_type)) [
          | Kind.unreadable ↦ populate_untyped unicode mime parsed c
          | Kind.multipart boundary ↦ populate_parts unicode mime parsed (parts boundary)
          | Kind.leaf media_type ↦ populate_single unicode mime parsed media_type t c
        ]
  unfolding populate
  populate-kind parsed content_type t c parts = refl

  leaves-kind :
      (content_type t : String) (c : Content) (parts : String → Parts)
      → leaves unicode mime content_type t (Body.body c parts)
        ≡ elim (kind (mime.media_type content_type)) [
          | Kind.unreadable ↦ read_leaf Leaf.untyped (read_all c)
          | Kind.multipart boundary ↦ leaves_of_parts unicode mime (parts boundary)
          | Kind.leaf media_type ↦
              read_leaf (Leaf.single media_type) (read_decoded_body unicode mime c t)
        ]
  unfolding leaves
  leaves-kind content_type t c parts = refl

  populate_parts-part :
      (parsed : ParsedMessage) (header : PartHeader) (inner : Body) (rest : Parts)
      → populate_parts unicode mime parsed (Parts.part header inner rest)
        ≡ elim (is_attachment unicode mime header) [
          | true ↦ elim (read_decoded_body unicode mime (content inner) header.transfer_encoding) [
            | err e ↦ err e
            | ok payload ↦
                populate_parts unicode mime
                  (add_attachment unicode mime (attachment unicode mime header payload) parsed)
                  rest
          ]
          | false ↦
              elim (populate unicode mime parsed header.content_type header.transfer_encoding
                inner) [ err e ↦ err e | ok populated ↦ populate_parts unicode mime populated rest ]
        ]
  unfolding populate_parts
  populate_parts-part parsed header inner rest = refl

  leaves_of_parts-part :
      (header : PartHeader) (inner : Body) (rest : Parts)
      → leaves_of_parts unicode mime (Parts.part header inner rest)
        ≡ elim (is_attachment unicode mime header) [
          | true ↦
              append_leaves
                (read_leaf
                  (λ payload. Leaf.attached (attachment unicode mime header payload))
                  (read_decoded_body unicode mime (content inner) header.transfer_encoding))
                (leaves_of_parts unicode mime rest)
          | false ↦
              append_leaves
                (leaves unicode mime header.content_type header.transfer_encoding inner)
                (leaves_of_parts unicode mime rest)
        ]
  unfolding leaves_of_parts
  leaves_of_parts-part header inner rest = refl

  mutual
    unfolding populate leaves populate_untyped populate_single attachments_of text_of html_of

    pub populate-collect :
        (parsed : ParsedMessage) (content_type transfer_encoding : String) (b : Body)
        → populate unicode mime parsed content_type transfer_encoding b
          ≡ collect mime parsed (leaves unicode mime content_type transfer_encoding b)
    populate-collect parsed content_type t (Body.body c parts) =
        elim (Kind-cases (kind (mime.media_type content_type))) [
          | inl e ↦
              rw
                (populate-kind parsed content_type t c parts, leaves-kind content_type t c parts, e)
                (untyped-collect parsed c)
          | inr (inl (boundary, e)) ↦
              rw
                (populate-kind parsed content_type t c parts, leaves-kind content_type t c parts, e)
                (populate_parts-collect parsed (parts boundary))
          | inr (inr (media_type, e)) ↦
              rw
                (populate-kind parsed content_type t c parts, leaves-kind content_type t c parts, e)
                (single-collect parsed media_type t c)
        ]

    pub populate_parts-collect :
        (parsed : ParsedMessage) (ps : Parts)
        → populate_parts unicode mime parsed ps
          ≡ collect mime parsed (leaves_of_parts unicode mime ps)
    populate_parts-collect parsed (Parts.end none) = ap ok (collected-none parsed)
    populate_parts-collect parsed (Parts.end (some e)) = refl
    populate_parts-collect parsed (Parts.part header inner rest) =
        elim (Bool-cases (is_attachment unicode mime header)) [
          | inl h ↦
              rw
                (
                  populate_parts-part parsed header inner rest,
                  leaves_of_parts-part header inner rest,
                  h,
                )
                (elim (Result-cases
                  (read_decoded_body unicode mime (content inner) header.transfer_encoding)) [
                    | inl (x, e) ↦ rw e refl
                    | inr (payload, e) ↦ rw e (
                        populate_parts-collect
                          (add_attachment unicode mime (attachment unicode mime header payload)
                            parsed)
                          rest
                        ∙ collect-append
                            (Leaf.attached (attachment unicode mime header payload) ∷ [])
                            (leaves_of_parts unicode mime rest) parsed)
                  ])
          | inr h ↦
              rw
                (
                  populate_parts-part parsed header inner rest,
                  leaves_of_parts-part header inner rest,
                  h,
                  populate-collect parsed header.content_type header.transfer_encoding inner,
                )
                (elim (Result-cases
                  (leaves unicode mime header.content_type header.transfer_encoding inner)) [
                    | inl (x, e) ↦ rw e refl
                    | inr (ls, e) ↦ rw e (
                        populate_parts-collect (collected mime ls parsed) rest
                        ∙ collect-append ls (leaves_of_parts unicode mime rest) parsed)
                  ])
        ]

-- Walking the parts fails with the first error that reading them gives; else it keeps the message as it
-- was but for three fields: the text body is the first that is not empty, unless a part of unreadable
-- type comes later, the HTML body is the first that is not empty, and the attachments follow in order.
pub populate-Collects :
    (unicode : Unicode) (mime : Mime) (parsed : ParsedMessage)
    (content_type transfer_encoding : String) (b : Body)
    → populate unicode mime parsed content_type transfer_encoding b
      ≡ collect mime parsed (leaves unicode mime content_type transfer_encoding b)
populate-Collects unicode mime parsed content_type transfer_encoding b =
    populate-collect unicode mime parsed content_type transfer_encoding b
