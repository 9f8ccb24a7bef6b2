-- ===== src/Smtp/Reached.antt =====
-- The states that a session of internal/smtpedge/session.go can be in, and what it enqueues.
use agent_layer.Prelude.{
  String, ◌==◌, eq_iff, Option, none, some, false, Bool-cases, inl, inr, ◌⊎◌, ◌≡◌, ◌≢◌, refl, arith,
  [], ◌∷◌,
}
use agent_layer.Prelude.Exec.{Result, ok, err, bind-ok}
use agent_layer.Domain.{Time, Bytes, Inbox}
use agent_layer.Inbound.Receipt.{DurableReceiptRequest}
use agent_layer.Smtp.Session.{
  Session, Edge, new_session, mail, rcpt, accept_recipient, receive_content, keep_message, reset,
}

-- A session begins without sender and recipient, and changes by its commands, answered or refused.
pub data Reached {S : Type 0} (edge : Edge S) : Session → S → Type 0 where
  begin : (id : String) (s : S) → Reached edge (new_session id) s
  by_mail :
      (from : String) (x : Session) (s : S)
      → Reached edge x s
      → Reached edge (mail edge from (x, s)).1.0 (mail edge from (x, s)).1.1
  by_rcpt :
      (to : String) (x : Session) (s : S)
      → Reached edge x s
      → Reached edge (rcpt edge to (x, s)).1.0 (rcpt edge to (x, s)).1.1
  by_content :
      (read : Result Bytes) (x : Session) (s : S)
      → Reached edge x s
      → Reached edge (receive_content edge read (x, s)).1.0 (receive_content edge read (x, s)).1.1
  by_reset :
      (x : Session) (s : S)
      → Reached edge x s
      → Reached edge (reset edge (x, s)).0 (reset edge (x, s)).1

given : (a : String) → (a == "") ≡ false → a ≢ ""
given a h = ground (arith, eq_iff a "")

module _ {S : Type 0} (edge : Edge S) where
  -- The inbox of a session is the one that was found for its recipient.
  abbrev pub IsAddressed : Session → Type 0
  IsAddressed x =
      (x.recipient ≡ "")
      ⊎ ((s : S) × (s' : S) × (edge.find_by_email_address x.recipient s
            ≡ (ok (some x.target_inbox), s')))

  accepted-IsAddressed :
      (to : String) (x : Session) (s : S) (o : Result (Option Inbox) × S)
      → edge.find_by_email_address to s ≡ o
      → IsAddressed x
      → IsAddressed (accept_recipient edge to x o).1.0
  accepted-IsAddressed to x s (err e, s') f h = h
  accepted-IsAddressed to x s (ok none, s') f h = h
  accepted-IsAddressed to x s (ok (some inbox), s') f h = inr (s, s', f)

  mail-IsAddressed :
      (from : String) (x : Session) (s : S)
      → IsAddressed x
      → IsAddressed (mail edge from (x, s)).1.0
  unfolding mail
  mail-IsAddressed from x s h = elim (Bool-cases (from == "")) [ inl e ↦ rw e h | inr e ↦ rw e h ]

  rcpt-IsAddressed :
      (to : String) (x : Session) (s : S) → IsAddressed x → IsAddressed (rcpt edge to (x, s)).1.0
  unfolding rcpt
  rcpt-IsAddressed to x s h = elim (Bool-cases (to == "")) [
    | inl e ↦ rw e h
    | inr e ↦ rw e (accepted-IsAddressed to x s (edge.find_by_email_address to s) refl h)
  ]

  content_keeps :
      (read : Result Bytes) (x : Session) (s : S) → (receive_content edge read (x, s)).1.0 ≡ x
  unfolding receive_content
  content_keeps read x s = ground arith

  -- Whatever commands a session was given, its target inbox is one that the lookup returned for its
  -- recipient, unless it has no recipient.
  pub Reached-IsAddressed : (x : Session) (s : S) → Reached edge x s → IsAddressed x
  unfolding reset new_session
  Reached-IsAddressed _ _ (begin id s) = inl refl
  Reached-IsAddressed _ _ (by_mail from x s r) =
      mail-IsAddressed from x s (Reached-IsAddressed x s r)
  Reached-IsAddressed _ _ (by_rcpt to x s r) = rcpt-IsAddressed to x s (Reached-IsAddressed x s r)
  Reached-IsAddressed _ _ (by_content read x s r) =
      rw (content_keeps read x s) (Reached-IsAddressed x s r)
  Reached-IsAddressed _ _ (by_reset x s r) = Reached-IsAddressed x s r

  -- A receipt names the session, its sender and its one recipient, the inbox that was found with its
  -- agent and its organization, the key of the raw message and the time.
  pub record Names (x : Session) (key : String) (at : Time) (receipt : DurableReceiptRequest)
      : Type 0 where
    pub session : receipt.smtp_transaction_id ≡ x.session_id
    pub organization : receipt.organization_id ≡ x.target_inbox.organization_id
    pub agent : receipt.agent_id ≡ x.target_inbox.agent_id
    pub inbox : receipt.inbox_id ≡ x.target_inbox.id
    pub sender : receipt.envelope_sender ≡ x.sender
    pub recipients : receipt.envelope_recipients ≡ x.recipient ∷ []
    pub object_key : receipt.raw_message_object_key ≡ key
    pub received_at : receipt.received_at ≡ at

  -- What a DATA command did that returned: the raw message was kept under a key made for the inbox,
  -- and then the receipt was enqueued.
  pub record Enqueued (x : Session) (raw : Bytes) (s s' : S) : Type 0 where
    pub has_sender : x.sender ≢ ""
    pub has_recipient : x.recipient ≢ ""
    pub lookup :
        (a : S) × (b : S) × (edge.find_by_email_address x.recipient a
          ≡ (ok (some x.target_inbox), b))
    pub received_at : Time
    pub key : String
    pub at_clock : S
    pub at_key : S
    pub at_put : S
    pub read_clock : edge.now s ≡ (ok received_at, at_clock)
    pub made_key : edge.next_key received_at x.target_inbox at_clock ≡ (ok key, at_key)
    pub kept : edge.put key raw at_key ≡ (ok tt, at_put)
    pub receipt : DurableReceiptRequest
    pub names : Names x key received_at receipt
    pub enqueued : edge.enqueue receipt at_put ≡ (ok tt, s')

  content_ok :
      (raw : Bytes) (x : Session) (s : S) (u : Unit {0}) (t : Session × S)
      → receive_content edge (ok raw) (x, s) ≡ (ok u, t)
      → ((x.sender == "") ≡ false)
        × ((x.recipient == "") ≡ false)
        × (keep_message edge x (ok raw) s ≡ (ok u, t.1))
  unfolding receive_content
  content_ok raw x s u t e = ground arith

  some_inbox :
      (x : Session)
      → IsAddressed x
      → (x.recipient == "") ≡ false
      → (a : S) × (b : S) × (edge.find_by_email_address x.recipient a
          ≡ (ok (some x.target_inbox), b))
  some_inbox x (inl none_yet) h = absurd (given x.recipient h none_yet)
  some_inbox x (inr found) h = found

  -- A DATA command that returns, in whatever session: a sender and a recipient had been accepted, the
  -- lookup had returned the target inbox for the recipient, the raw message was kept before the
  -- receipt was enqueued, and the receipt names that inbox, its agent and its organization, the sender,
  -- the recipient, the key and the time.
  pub receive_content-Enqueued :
      (raw : Bytes) (x : Session) (s : S) (t : Session × S)
      → Reached edge x s
      → receive_content edge (ok raw) (x, s) ≡ (ok tt, t)
      → Enqueued x raw s t.1
  unfolding keep_message
  receive_content-Enqueued raw x s t r e =
      let (sender, recipient, run) = content_ok raw x s tt t e in
      let (at, s₁, e₁, f₁) = bind-ok edge.now _ s tt t.1 run in
      let (key, s₂, e₂, f₂) = bind-ok (edge.next_key at x.target_inbox) _ s₁ tt t.1 f₁ in
      let (u, s₃, e₃, f₃) = bind-ok (edge.put key raw) _ s₂ tt t.1 f₂ in
      record {
        has_sender = given x.sender sender;
        has_recipient = given x.recipient recipient;
        lookup = some_inbox x (Reached-IsAddressed x s r) recipient;
        received_at = at;
        key = key;
        at_clock = s₁;
        at_key = s₂;
        at_put = s₃;
        read_clock = e₁;
        made_key = e₂;
        kept = e₃;
        receipt = _;
        names = record {
          session = refl;
          organization = refl;
          agent = refl;
          inbox = refl;
          sender = refl;
          recipients = refl;
          object_key = refl;
          received_at = refl;
        };
        enqueued = f₃;
      }
