-- ===== src/Parser/Outcome.antt =====
-- internal/parser/parser.go: what a raw message is parsed to.
use mathlib.Core.Path.{subst}
use agent_layer.Prelude.{List, ◌≡◌, refl, ap, sym, ◌∙◌, inl, inr}
use agent_layer.Prelude.Exec.{Result, Result-cases, ok, err}
use agent_layer.Domain.{Bytes}
use agent_layer.Core.{ParsedMessage}
use agent_layer.Text.{Unicode}
use agent_layer.Outbound.Assembler.{reply_subject}
use agent_layer.Parser.Subject.{normalize_subject}
use agent_layer.Parser.Replies.{normalize_subject-reply_subject}
use agent_layer.Parser.Body.{Mime}
use agent_layer.Parser.Leaves.{Leaf, leaves, collected}
use agent_layer.Parser.Collects.{populate-Collects}
use agent_layer.Parser.Message.{Mail, MailMessage, parsed_header, parse_raw}

module _ (unicode : Unicode) (mime : Mime) (mail : Mail) where
  -- The parts that a message was made of.
  pub record Parsed (raw : Bytes) (p : ParsedMessage) : Type 0 where
    pub message : MailMessage
    pub parts : List Leaf
    pub read : mail.read_message raw ≡ ok message
    pub walked :
        leaves unicode mime
          (message.header "Content-Type")
          (message.header "Content-Transfer-Encoding")
          message.body
        ≡ ok parts
    pub made : p ≡ collected mime parts (parsed_header unicode mime mail message)

  abbrev Outcome : Bytes → Result ParsedMessage → Type 0
  Outcome raw (err e) = Unit
  Outcome raw (ok p) = Parsed raw p

  parse_raw-Outcome : (raw : Bytes) → Outcome raw (parse_raw unicode mime mail raw)
  unfolding parse_raw
  parse_raw-Outcome raw = elim (Result-cases (mail.read_message raw)) [
    | inl (x, e) ↦ rw (parse_raw, e) tt
    | inr (m, e) ↦
        rw
          (
            parse_raw,
            e,
            populate-Collects unicode mime (parsed_header unicode mime mail m)
                (m.header "Content-Type") (m.header "Content-Transfer-Encoding") m.body,
          )
          (elim (Result-cases (
            leaves unicode mime (m.header "Content-Type") (m.header "Content-Transfer-Encoding")
              m.body)) [
                | inl (x, l) ↦ rw l tt
                | inr (ls, l) ↦
                    rw l (record { message = m; parts = ls; read = e; walked = l; made = refl })
              ])
  ]

  -- A message that is parsed has the subject in the normal form that threads are matched by.
  subject-normalized :
      (raw : Bytes) (p : ParsedMessage)
      → parse_raw unicode mime mail raw ≡ ok p
      → p.subject_normalized ≡ normalize_subject unicode p.subject
  unfolding parsed_header
  subject-normalized raw p run =
      let h = subst (Outcome raw) run (parse_raw-Outcome raw) in rw h.made refl

-- If a message is parsed, and another one whose subject is the one that a reply to the first is sent
-- with, then both have the same normalized subject, by which threads are matched.
pub answers-normalized :
    (unicode : Unicode) (mime : Mime) (mail : Mail) (raw raw' : Bytes) (p p' : ParsedMessage)
    → parse_raw unicode mime mail raw ≡ ok p
    → parse_raw unicode mime mail raw' ≡ ok p'
    → p'.subject ≡ reply_subject unicode p.subject
    → p'.subject_normalized ≡ p.subject_normalized
answers-normalized unicode mime mail raw raw' p p' run run' e =
    subject-normalized unicode mime mail raw' p' run'
    ∙ ap (normalize_subject unicode) e
    ∙ normalize_subject-reply_subject unicode p.subject
    ∙ sym (subject-normalized unicode mime mail raw p run)
