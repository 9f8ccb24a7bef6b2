-- ===== src/Postgres/Unreadable.antt =====
-- internal/store/postgres/webhook_deliveries.go: what becomes of a delivery that has no next attempt.
use agent_layer.Prelude.{
  ℕ, String, true, Option, some, none, List, [], ◌∷◌, map, length, ◌≡◌, ◌≢◌, ◌⊎◌, ◌<◌, refl, ap,
  ◌∙◌, sym, eq_refl, inl, inr, Bool-cases, arith, suc,
}
use mathlib.Core.Path.{subst}
use agent_layer.Prelude.Int.{ℤ, pos, pos_part}
use agent_layer.Prelude.Exec.{Error, Result, ok, err, failure}
use agent_layer.Domain.{Time, Bytes, WebhookDelivery, is_zero}
use agent_layer.Rows.Delivery.{
  WebhookDeliveryModel, HeaderJson, delivery_row, webhook_delivery_to_model,
  webhook_delivery_from_model,
}
use agent_layer.Postgres.Sql.{Value, null, text, number, bytes, time, Query, Rows, Db}
use agent_layer.Postgres.Scans.{Scan, scan_row, nullable_time}
use agent_layer.Postgres.Calls.{
  required_row, all_rows, appended, converted_row, limit_or, scanned_rows, saved,
}
use agent_layer.Postgres.Tables.{Storage, held, Row, row_of, Member, IsStored, IsSql}
use agent_layer.Postgres.Stored.{Answers, saved-ok, same_key-text, stored-scan}
use agent_layer.Postgres.Deliveries
use agent_layer.Postgres.Deliveries.{
  insert_delivery, delivery_args, delivery_by_id, deliveries, delivery_columns, scan_delivery,
  exec_row,
}

-- What scanning a NULL into a time.Time gives.
abbrev pub null_time_error : Error
null_time_error = failure "converting NULL to time.Time is unsupported"

nullable_time-zero : (t : Time) → is_zero t ≡ true → nullable_time t ≡ null
nullable_time-zero t z = ground arith

nullable_time-cases : (t : Time) → (nullable_time t ≡ null) ⊎ (nullable_time t ≡ time t)
nullable_time-cases t = elim (Bool-cases (is_zero t)) [
  | inl z ↦ inl (ground arith)
  | inr z ↦ inr (ground arith)
]

held-zero :
    (storage : Storage) (n : String) (t : Time)
    → is_zero t ≡ true
    → held storage n (nullable_time t) ≡ null
held-zero storage n t z = ap (held storage n) (nullable_time-zero t z)

held-cases :
    (storage : Storage) (n : String) (t : Time)
    → (held storage n (nullable_time t) ≡ null)
      ⊎ (held storage n (nullable_time t) ≡ time (storage.rounded t))
held-cases storage n t = elim (nullable_time-cases t) [
  | inl e ↦ inl (ap (held storage n) e)
  | inr e ↦ inr (ap (held storage n) e)
]

length-map : {A B : Type 0} (f : A → B) (l : List A) → length (map f l) ≡ length l
length-map f [] = refl
length-map f (x ∷ l) = ap suc (length-map f l)

-- A loop over the rows that returns has scanned each of them, and goes to their end.
module _ {A B : Type 0} (scan : Scan A) (convert : A → Result B) where
  appended-ok :
      (r : Result B) (rest : Result (List B)) (out : List B)
      → appended scan convert r rest ≡ ok out
      → (b : B) × (tail : List B) × (r ≡ ok b) × (rest ≡ ok tail) × (out ≡ b ∷ tail)
  appended-ok (err e) rest out h = absurd (cc)
  appended-ok (ok b) (err e) out h = absurd (cc)
  appended-ok (ok b) (ok tail) out h = (b, tail, refl, refl, cc)

  all_rows-ok :
      (rows : List (List Value)) (failed : Option Error) (out : List B)
      → all_rows scan convert rows failed ≡ ok out
      → (failed ≡ none) × (length out ≡ length rows)
  all_rows-ok [] none out h = (refl, ap length (let e : out ≡ [] = cc in e))
  all_rows-ok [] (some e) out h = absurd (cc)
  all_rows-ok (row ∷ rows) failed out h =
      let (b, tail, p, q, e) =
        appended-ok (converted_row scan convert (scan_row scan row))
          (all_rows scan convert rows failed) out h in
      let (f, l) = all_rows-ok rows failed tail q in (f, ap length e ∙ ap suc l)

  all_rows-refused :
      (columns : List String) (picked : List Row) (failed : Option Error) (out : List B) (r : Row)
      (x : Error)
      → all_rows scan convert (map (λ q. map q columns) picked) failed ≡ ok out
      → Member r picked
      → scan_row scan (map r columns) ≢ err x
  all_rows-refused columns [] failed out r x h m e = elim m [ ]
  all_rows-refused columns (q ∷ picked) failed out r x h m e =
      let (b, tail, p, rest, _) =
        appended-ok (converted_row scan convert (scan_row scan (map q columns)))
          (all_rows scan convert (map (λ q. map q columns) picked) failed) out h in
      elim m [
        | inl same ↦
            let k : converted_row scan convert (err x) ≡ ok b =
              ap (converted_row scan convert)
                (sym e ∙ ap (λ (g : Row). scan_row scan (map g columns)) same)
              ∙ p in
            absurd (cc)
        | inr later ↦ all_rows-refused columns picked failed tail r x rest later e
      ]

module _ {S : Type 0} (Has : S → String → Row → Type 0) (headers : HeaderJson) (db : Db S)
    (sql : IsSql Has db) where
  exec_row-ok :
      (d d' : WebhookDelivery) (r : Result WebhookDeliveryModel) (s s' : S)
      → exec_row headers db d r s ≡ (ok d', s')
      → (row : WebhookDeliveryModel) × (r ≡ ok row)
        × (saved (db.exec insert_delivery (delivery_args row)) d s ≡ (ok d', s'))
  exec_row-ok d d' (ok row) s s' h = (row, refl, h)
  exec_row-ok d d' (err e) s s' h = let p : (err e ≡ ok d') = ap (λ x. x.0) h in absurd (cc)

  to_model-ok :
      (d : WebhookDelivery) (row : WebhookDeliveryModel)
      → webhook_delivery_to_model headers d ≡ ok row
      → (b : Bytes) × (row ≡ delivery_row headers d b)
  unfolding webhook_delivery_to_model
  to_model-ok d row h = by_json (headers.marshal d.request_headers) refl
    where
      by_json :
          (r : Result Bytes)
          → headers.marshal d.request_headers ≡ r
          → (b : Bytes) × (row ≡ delivery_row headers d b)
      by_json (ok b) e =
          let p : webhook_delivery_to_model headers d ≡ ok (delivery_row headers d b) =
            rw (webhook_delivery_to_model, e) refl in
          (b, cc)
      by_json (err x) e =
          let p : webhook_delivery_to_model headers d ≡ err x =
            rw (webhook_delivery_to_model, e) refl in
          absurd (cc)

  -- The values of a delivery's row, with those of its id, its nullable columns and its creation.
  abbrev values_with : WebhookDelivery → Bytes → Value → Value → Value → Value → List Value
  values_with d b id last next created =
      id
      ∷ text d.organization_id
      ∷ text d.agent_id
      ∷ text d.event_type
      ∷ text d.event_id
      ∷ text d.request_url
      ∷ held sql.storage "request_payload" (bytes d.request_payload)
      ∷ held sql.storage "request_headers" (bytes b)
      ∷ text d.status
      ∷ number d.attempt_count
      ∷ last
      ∷ next
      ∷ number d.response_code
      ∷ held sql.storage "response_body" (bytes d.response_body)
      ∷ created
      ∷ held sql.storage "updated_at" (time d.updated_at)
      ∷ []

  scan-null :
      (d : WebhookDelivery) (b : Bytes) (id last next created : Value) (t : Time)
      → id ≡ text d.id
      → next ≡ null
      → (last ≡ null) ⊎ (last ≡ time t)
      → scan_row (scan_delivery headers db) (values_with d b id last next created)
        ≡ err null_time_error
  scan-null d b id last next created t i n (inl e) = rw (i, n, e) refl
  scan-null d b id last next created t i n (inr e) = rw (i, n, e) refl

  abbrev last : WebhookDelivery → Value
  last d = held sql.storage "last_attempt_at" (nullable_time d.last_attempt_at)

  abbrev next : WebhookDelivery → Value
  next d = held sql.storage "next_attempt_at" (nullable_time d.next_attempt_at)

  -- Scanning the row that the save of a delivery without a next attempt leaves.
  stored-unread :
      (d : WebhookDelivery) (b : Bytes) (s : S) (r : Row)
      → is_zero d.next_attempt_at ≡ true
      → IsStored Has insert_delivery
          (row_of sql.storage insert_delivery.columns (delivery_args (delivery_row headers d b)))
          s
          r
      → scan_row (scan_delivery headers db) (map r delivery_by_id.columns) ≡ err null_time_error
  stored-unread d b s r z (inl (f, e)) =
      ap (λ (q : Row). scan_row (scan_delivery headers db) (map q delivery_by_id.columns)) e
      ∙ scan-null d b (text d.id) (last d) (next d) (time (sql.storage.rounded d.created_at))
          (sql.storage.rounded d.last_attempt_at) refl
          (held-zero sql.storage "next_attempt_at" d.next_attempt_at z)
          (held-cases sql.storage "last_attempt_at" d.last_attempt_at)
  stored-unread d b s r z (inr (old, h, c, e)) =
      ap (λ (q : Row). scan_row (scan_delivery headers db) (map q delivery_by_id.columns)) e
      ∙ scan-null d b (old "id") (last d) (next d) (old "created_at")
          (sql.storage.rounded d.last_attempt_at) (same_key-text (old "id") d.id c)
          (held-zero sql.storage "next_attempt_at" d.next_attempt_at z)
          (held-cases sql.storage "last_attempt_at" d.last_attempt_at)

  listing-refused :
      (d : WebhookDelivery) (b : Bytes) (s s' : S) (limit : ℤ) (ds : List WebhookDelivery)
      → is_zero d.next_attempt_at ≡ true
      → db.exec insert_delivery (delivery_args (delivery_row headers d b)) s ≡ (ok tt, s')
      → (Deliveries.list_webhook_deliveries headers db limit s').0 ≡ ok ds
      → ¬ (length ds < pos_part (limit_or (pos 20) limit))
  unfolding Deliveries.list_webhook_deliveries
  listing-refused d b s s' limit ds z p l short =
      by_result (db.query (Query.select deliveries) key s').0 refl
    where
      key : List Value
      key = number (limit_or (pos 20) limit) ∷ []

      convert : WebhookDeliveryModel → Result WebhookDelivery
      convert = webhook_delivery_from_model headers

      by_result : (o : Result Rows) → (db.query (Query.select deliveries) key s').0 ≡ o → ⊥
      by_result (err x) e =
          let k : err x ≡ ok ds =
            sym (ap (scanned_rows (scan_delivery headers db) convert) e) ∙ l in
          absurd (cc)
      by_result (ok rows) e =
          let (picked, a) = sql.answered deliveries key s' rows e in
          let k : all_rows (scan_delivery headers db) convert rows.values rows.failed ≡ ok ds =
            sym (ap (scanned_rows (scan_delivery headers db) convert) e) ∙ l in
          let q =
            sym (ap (λ v. all_rows (scan_delivery headers db) convert v rows.failed) a.values)
            ∙ k in
          let (f, n) =
            all_rows-ok (scan_delivery headers db) convert rows.values rows.failed ds k in
          let m =
            n ∙ ap length a.values ∙ length-map (λ (g : Row). map g delivery_columns) picked in
          let (r, has, st) =
            sql.stored insert_delivery (delivery_args (delivery_row headers d b)) s s' p in
          all_rows-refused (scan_delivery headers db) convert delivery_columns picked rows.failed ds
            r null_time_error q
            (a.complete f (subst (λ (i : ℕ). i < pos_part (limit_or (pos 20) limit)) m short) r has
              refl)
            (stored-unread d b s r z st)

  -- Saving a delivery that has no next attempt, as a delivery is once an attempt succeeded or the last
  -- one failed: if the save returns, then reading the delivery by its id fails, and a listing of
  -- deliveries fails too, unless as many as the limit stand before it.
  pub save-Unreadable :
      (d d' : WebhookDelivery) (s s' : S) (limit : ℤ)
      → is_zero d.next_attempt_at ≡ true
      → Deliveries.save_webhook_delivery headers db d s ≡ (ok d', s')
      → Answers db (Query.select delivery_by_id) (text d.id ∷ []) s'
      → ((Deliveries.get_webhook_delivery_by_id headers db d.id s').0 ≡ err null_time_error)
        × ((ds : List WebhookDelivery)
            → (Deliveries.list_webhook_deliveries headers db limit s').0 ≡ ok ds
            → ¬ (length ds < pos_part (limit_or (pos 20) limit)))
  unfolding Deliveries.save_webhook_delivery Deliveries.get_webhook_delivery_by_id
      Deliveries.list_webhook_deliveries
  save-Unreadable d d' s s' limit z h a =
      let (row, m, saved_row) = exec_row-ok d d' _ s s' h in
      let (b, e) = to_model-ok d row m in
      let args = delivery_args (delivery_row headers d b) in
      let run =
        subst (λ r. saved (db.exec insert_delivery (delivery_args r)) d s ≡ (ok d', s')) e
          saved_row in
      let (p, _) = saved-ok (db.exec insert_delivery args) d d' s s' run in
      (
        ap (required_row (webhook_delivery_from_model headers)) (
            stored-scan Has db sql insert_delivery args delivery_by_id (text d.id ∷ [])
              (scan_delivery headers db) (err null_time_error) s s' s' p (λ r. (λ h. h, λ h. h))
              refl a tt (λ r. refl) (rw (eq_refl d.id) refl) (λ old. refl)
              (λ r q. stored-unread d b s r z q)),
        λ ds l. listing-refused d b s s' limit ds z p l,
      )
