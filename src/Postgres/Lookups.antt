-- ===== src/Postgres/Lookups.antt =====
-- internal/store/postgres: what a look-up by other columns than the id returns: suppressions.go,
-- contacts.go and threads.go.
use agent_layer.Prelude.{
  String, Bool, All, true, ◌&&◌, some, List, [], ◌∷◌, map, ◌≡◌, refl, ap, ◌∙◌, sym, eq_refl, arith,
}
use mathlib.Core.Path.{subst}
use agent_layer.Prelude.Exec.{Result, ok, err}
use agent_layer.Domain.{Contact, Thread, SuppressedAddress}
use agent_layer.Rows.Parties.{contact_from_model}
use agent_layer.Rows.Mail.{thread_from_model}
use agent_layer.Rows.Delivery.{suppressed_address_to_model}
use agent_layer.Postgres.Sql.{Value, text, boolean, Query, Select, Limit, Rows, Db}
use agent_layer.Postgres.Scans.{Scan, scan_row, next, bool_value}
use agent_layer.Postgres.Calls.{first_row, scanned_row, query_row}
use agent_layer.Postgres.Tables.{Row, matches, IsSql}
use agent_layer.Postgres.Stored.{same_value-text, Answers, same_keys-text, fits-stored, saved-ok}
use agent_layer.Postgres.Contacts
use agent_layer.Postgres.Contacts.{contact_by_email, scan_contact}
use agent_layer.Postgres.Threads
use agent_layer.Postgres.Threads.{thread_by_subject, scan_thread}
use agent_layer.Postgres.Suppressions
use agent_layer.Postgres.Suppressions.{
  insert_suppression, suppression_args, suppression_of_address, known_suppressed,
}
use agent_layer.Postgres.Scanned.{
  first_row-found, optional-found, scan_contact-fields, scan_thread-fields, text-read,
}

and_parts :
    (a b c d : Bool)
    → (a && (b && (c && (d && true)))) ≡ true
    → (a ≡ true) × (b ≡ true) × (c ≡ true) × (d ≡ true)
and_parts a b c d h = (ground arith, ground arith, ground arith, ground arith)

-- The columns by which a suppression is unique.
abbrev organization_and_address : Select
organization_and_address = record {
  columns = [];
  from = "suppressed_addresses";
  equals = "organization_id" ∷ "email_address" ∷ [];
  descending = [];
  limit = Limit.unlimited;
}

pub record LookupsFit {S : Type 0} (db : Db S) : Type 0 where
  pub contact :
      (organization_id email : String) (c : Contact) (s : S)
      → (Contacts.find_by_email db organization_id email s).0 ≡ ok (some c)
      → (c.organization_id ≡ organization_id) × (c.email_address ≡ email)
  pub thread :
      (organization_id inbox_id contact_id subject_normalized : String) (t : Thread) (s : S)
      → (Threads.find_most_recent_by_subject db organization_id inbox_id contact_id
          subject_normalized s).0
        ≡ ok (some t)
      → (t.organization_id ≡ organization_id)
        × (t.inbox_id ≡ inbox_id)
        × (t.contact_id ≡ contact_id)
        × (t.subject_normalized ≡ subject_normalized)

module _ {S : Type 0} (Has : S → String → Row → Type 0) (db : Db S) (sql : IsSql Has db) where
  -- The row that a query for one row scanned fits its WHERE.
  query_row-found :
      {A : Type 0} (scan : Scan A) (query : Select) (args : List Value) (s : S) (a : A)
      → (query_row db scan (Query.select query) args s).0 ≡ ok (some a)
      → (r : Row) × Has s query.from r
        × (matches query.equals args r ≡ true)
        × (scan_row scan (map r query.columns) ≡ ok a)
  query_row-found scan query args s a h = by_result (db.query (Query.select query) args s).0 refl
    where
      by_result :
          (o : Result Rows)
          → (db.query (Query.select query) args s).0 ≡ o
          → (r : Row) × Has s query.from r
            × (matches query.equals args r ≡ true)
            × (scan_row scan (map r query.columns) ≡ ok a)
      by_result (err x) e =
          let k : err x ≡ ok (some a) = sym (ap (scanned_row scan) e) ∙ h in absurd (cc)
      by_result (ok rows) e =
          let (picked, ans) = sql.answered query args s rows e in
          let (r, rest, p, q) = first_row-found scan query.columns picked rows.failed a (
            sym (ap (λ v. first_row scan v rows.failed) ans.values)
            ∙ sym (ap (scanned_row scan) e)
            ∙ h) in
          let (has, m) =
            (subst (All (λ g. Has s query.from g × (matches query.equals args g ≡ true))) p
              ans.found).0 in
          (r, has, m, q)

  find_by_email-fits :
      (organization_id email : String) (c : Contact) (s : S)
      → (Contacts.find_by_email db organization_id email s).0 ≡ ok (some c)
      → (c.organization_id ≡ organization_id) × (c.email_address ≡ email)
  unfolding Contacts.find_by_email contact_from_model
  find_by_email-fits organization_id email c s h =
      let key = text organization_id ∷ text email ∷ [] in
      let (x, p, q) =
        optional-found contact_from_model
          (query_row db (scan_contact db) (Query.select contact_by_email) key s).0 c h in
      let (r, has, m, k) = query_row-found (scan_contact db) contact_by_email key s x p in
      let (o, e) =
        same_keys-text (r "organization_id") (r "email_address") organization_id email m in
      let (a, b) =
        scan_contact-fields db (r "id") (r "organization_id") (r "email_address") (r "display_name")
          (r "last_seen_at") (r "created_at") (r "updated_at") x k in
      (
        ap (λ (y : Contact). y.organization_id) q
            ∙ text-read db (r "organization_id") organization_id x.organization_id o a,
        ap (λ (y : Contact). y.email_address) q
            ∙ text-read db (r "email_address") email x.email_address e b,
      )

  find_most_recent-fits :
      (organization_id inbox_id contact_id subject_normalized : String) (t : Thread) (s : S)
      → (Threads.find_most_recent_by_subject db organization_id inbox_id contact_id
          subject_normalized s).0
        ≡ ok (some t)
      → (t.organization_id ≡ organization_id)
        × (t.inbox_id ≡ inbox_id)
        × (t.contact_id ≡ contact_id)
        × (t.subject_normalized ≡ subject_normalized)
  unfolding Threads.find_most_recent_by_subject thread_from_model
  find_most_recent-fits organization_id inbox_id contact_id subject_normalized t s h =
      let key =
        text organization_id ∷ text inbox_id ∷ text contact_id ∷ text subject_normalized ∷ [] in
      let (x, p, q) =
        optional-found thread_from_model
          (query_row db (scan_thread db) (Query.select thread_by_subject) key s).0 t h in
      let (r, has, m, k) = query_row-found (scan_thread db) thread_by_subject key s x p in
      let (m₁, m₂, m₃, m₄) = and_parts _ _ _ _ m in
      let (a₁, a₂, a₃, a₄) =
        scan_thread-fields db (r "id") (r "organization_id") (r "agent_id") (r "inbox_id")
          (r "contact_id") (r "subject_normalized") (r "state") (r "last_inbound_id")
          (r "last_outbound_id") (r "last_activity_at") (r "created_at") (r "updated_at") x k in
      (
        ap (λ (y : Thread). y.organization_id) q
            ∙ text-read db (r "organization_id") organization_id x.organization_id
                (same_value-text (r "organization_id") organization_id m₁) a₁,
        ap (λ (y : Thread). y.inbox_id) q
            ∙ text-read db (r "inbox_id") inbox_id x.inbox_id
                (same_value-text (r "inbox_id") inbox_id m₂) a₂,
        ap (λ (y : Thread). y.contact_id) q
            ∙ text-read db (r "contact_id") contact_id x.contact_id
                (same_value-text (r "contact_id") contact_id m₃) a₃,
        ap (λ (y : Thread). y.subject_normalized) q
            ∙ text-read db (r "subject_normalized") subject_normalized x.subject_normalized
                (same_value-text (r "subject_normalized") subject_normalized m₄) a₄,
      )

  -- Once a suppression was saved, its address is suppressed in its organization, if the database answers.
  pub is_suppressed-save :
      (d d' : SuppressedAddress) (s s' : S)
      → Suppressions.save db d s ≡ (ok d', s')
      → Answers db suppression_of_address (text d.organization_id ∷ text d.email_address ∷ []) s'
      → (Suppressions.is_suppressed db d.organization_id d.email_address s').0 ≡ ok true
  unfolding Suppressions.save Suppressions.is_suppressed suppressed_address_to_model
  is_suppressed-save d d' s s' h (rows, q, f) =
      let args = suppression_args (suppressed_address_to_model d) in
      let key = text d.organization_id ∷ text d.email_address ∷ [] in
      let (e, _) = saved-ok (db.exec insert_suppression args) d d' s s' h in
      let (r, has, p) = sql.stored insert_suppression args s s' e in
      let (b, v, all, _) =
        sql.tested "suppressed_addresses" ("organization_id" ∷ "email_address" ∷ []) key s' rows q
          f in
      let fits =
        fits-stored Has db sql insert_suppression args organization_and_address key
          (matches ("organization_id" ∷ "email_address" ∷ []) key) s (λ g. refl)
          (rw (eq_refl d.organization_id, eq_refl d.email_address) refl) (λ old. refl) r p in
      ap known_suppressed (
        ap (scanned_row (next (bool_value db))) q
        ∙ ap (λ l. first_row (next (bool_value db)) l rows.failed)
            (v ∙ ap (λ c. (boolean c ∷ []) ∷ []) (all r has fits)))

  -- The contact that a look-up by organization and address returns has both, and the thread that a
  -- look-up by subject returns has the organization, the inbox, the contact and the subject asked for.
  pub lookups-Fit : LookupsFit db
  lookups-Fit = record { contact = find_by_email-fits; thread = find_most_recent-fits }
