-- ===== src/Postgres/Suppressions.antt =====
-- internal/store/postgres/suppressions.go.
use agent_layer.Prelude.{String, Bool, Option, some, none, List, [], ◌∷◌}
use agent_layer.Prelude.Int.{ℤ, pos}
use agent_layer.Prelude.Exec.{Exec, Result, ok, err}
use agent_layer.Domain.{SuppressedAddress}
use agent_layer.Rows.Delivery.{
  SuppressedAddressModel, suppressed_address_to_model, suppressed_address_from_model,
}
use agent_layer.Postgres.Sql.{Value, text, number, time, Insert, Select, Limit, Query, Db}
use agent_layer.Postgres.Scans.{Scan, ◌>>=◌, done, next, string_dest, time_dest, bool_value}
use agent_layer.Postgres.Calls.{query_row, query_all, required, saved, limit_or}

abbrev pub suppression_columns : List String
suppression_columns =
    "id" ∷ "organization_id" ∷ "email_address" ∷ "reason" ∷ "source" ∷ "created_at" ∷ "updated_at"
    ∷ []

abbrev pub insert_suppression : Insert
insert_suppression = record {
  into = "suppressed_addresses";
  columns = suppression_columns;
  conflict = "organization_id" ∷ "email_address" ∷ [];
  updated = "id" ∷ "reason" ∷ "source" ∷ "updated_at" ∷ [];
}

abbrev pub suppression_args : SuppressedAddressModel → List Value
suppression_args row =
    text row.id
    ∷ text row.organization_id
    ∷ text row.email_address
    ∷ text row.reason
    ∷ text row.source
    ∷ time row.created_at
    ∷ time row.updated_at
    ∷ []

abbrev pub suppression_by_id : Select
suppression_by_id = record {
  columns = suppression_columns;
  from = "suppressed_addresses";
  equals = "id" ∷ [];
  descending = [];
  limit = Limit.unlimited;
}

abbrev pub suppressions : Select
suppressions = record {
  columns = suppression_columns;
  from = "suppressed_addresses";
  equals = [];
  descending = "updated_at" ∷ "id" ∷ [];
  limit = Limit.by_argument;
}

abbrev pub suppression_of_address : Query
suppression_of_address =
    Query.exists "suppressed_addresses" ("organization_id" ∷ "email_address" ∷ [])

abbrev pub known_suppressed : Result (Option Bool) → Result Bool
known_suppressed (ok none) = ok Bool.false
known_suppressed (ok (some b)) = ok b
known_suppressed (err e) = err e

module _ {S : Type 0} (db : Db S) where
  abbrev pub scan_suppression : Scan SuppressedAddressModel
  scan_suppression = do
    id ← string_dest db
    organization_id ← string_dest db
    email_address ← string_dest db
    reason ← string_dest db
    source ← string_dest db
    created_at ← time_dest
    updated_at ← time_dest
    done (record {
      id = id;
      organization_id = organization_id;
      email_address = email_address;
      reason = reason;
      source = source;
      created_at = created_at;
      updated_at = updated_at;
    })

  unfoldable pub save : SuppressedAddress → Exec S SuppressedAddress
  unfolding suppressed_address_to_model
  save suppressed =
      saved (db.exec insert_suppression (suppression_args (suppressed_address_to_model suppressed)))
        suppressed

  unfoldable pub is_suppressed : String → String → Exec S Bool
  is_suppressed organization_id email_address s =
      let (r, s') =
        query_row db (next (bool_value db)) suppression_of_address
          (text organization_id ∷ text email_address ∷ []) s in
      (known_suppressed r, s')

  unfoldable pub get_by_id : String → Exec S SuppressedAddress
  unfolding suppressed_address_from_model
  get_by_id suppression_id =
      required (λ row. ok (suppressed_address_from_model row))
        (query_row db scan_suppression (Query.select suppression_by_id) (text suppression_id ∷ []))

  unfoldable pub list : ℤ → Exec S (List SuppressedAddress)
  unfolding suppressed_address_from_model
  list limit =
      query_all scan_suppression (λ row. ok (suppressed_address_from_model row)) db suppressions
        (number (limit_or (pos 20) limit) ∷ [])
