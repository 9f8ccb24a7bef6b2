-- ===== src/Postgres/Calls.antt =====
-- How internal/store/postgres calls ExecContext, QueryRowContext and QueryContext, and what it makes
-- of what they return.
use agent_layer.Prelude.{Option, none, some, List, [], ◌∷◌, if◌then◌else◌}
use agent_layer.Prelude.Int.{ℤ, pos, leb_ℤ}
use agent_layer.Prelude.Exec.{Exec, Error, Result, ok, err, not_found}
use agent_layer.Postgres.Sql.{Value, Insert, Select, Query, select, Rows, Db}
use agent_layer.Postgres.Scans.{Scan, scan_row}

-- The arguments of ExecContext where one is a driver.Valuer, which may refuse its value.
abbrev pub with_value : Result Value → (Value → List Value) → Result (List Value)
with_value (ok v) args = ok (args v)
with_value (err e) args = err e

abbrev pub exec_context : {S : Type 0} → Db S → Insert → Result (List Value) → Exec S (Unit {0})
exec_context db statement (ok args) s = db.exec statement args s
exec_context db statement (err e) s = (err e, s)

-- Row.Scan on what QueryRowContext returned; `none` is sql.ErrNoRows.
abbrev pub found_row : {A : Type 0} → Result A → Result (Option A)
found_row (ok a) = ok (some a)
found_row (err e) = err e

module _ {A : Type 0} (scan : Scan A) where
  abbrev pub first_row : List (List Value) → Option Error → Result (Option A)
  first_row [] none = ok none
  first_row [] (some e) = err e
  first_row (row ∷ rows) failed = found_row (scan_row scan row)

  abbrev pub scanned_row : Result Rows → Result (Option A)
  scanned_row (ok rows) = first_row rows.values rows.failed
  scanned_row (err e) = err e

abbrev pub query_row : {S A : Type 0} → Db S → Scan A → Query → List Value → Exec S (Option A)
query_row db scan query args s = let (r, s') = db.query query args s in (scanned_row scan r, s')

-- `if err != nil { if errors.Is(err, sql.ErrNoRows) { return ErrNotFound }; return err }`, and what
-- is made of the row.
module _ {A B : Type 0} (convert : A → Result B) where
  abbrev pub required_row : Result (Option A) → Result B
  required_row (ok (some a)) = convert a
  required_row (ok none) = err (not_found "")
  required_row (err e) = err e

  abbrev pub required : {S : Type 0} → Exec S (Option A) → Exec S B
  required m s = let (r, s') = m s in (required_row r, s')

-- The same where a missing row is no error.
module _ {A B : Type 0} (convert : A → B) where
  abbrev pub optional_row : Result (Option A) → Result (Option B)
  optional_row (ok (some a)) = ok (some (convert a))
  optional_row (ok none) = ok none
  optional_row (err e) = err e

  abbrev pub optional : {S : Type 0} → Exec S (Option A) → Exec S (Option B)
  optional m s = let (r, s') = m s in (optional_row r, s')

-- The loop over the rows that QueryContext returned, where `scan` is the call of Scan.
module _ {A B : Type 0} (scan : Scan A) (convert : A → Result B) where
  abbrev pub appended : Result B → Result (List B) → Result (List B)
  appended (err e) rest = err e
  appended (ok b) (ok out) = ok (b ∷ out)
  appended (ok b) (err e) = err e

  abbrev pub converted_row : Result A → Result B
  converted_row (ok a) = convert a
  converted_row (err e) = err e

  abbrev pub all_rows : List (List Value) → Option Error → Result (List B)
  all_rows [] none = ok []
  all_rows [] (some e) = err e
  all_rows (row ∷ rows) failed = appended (converted_row (scan_row scan row)) (all_rows rows failed)

  abbrev pub scanned_rows : Result Rows → Result (List B)
  scanned_rows (ok rows) = all_rows rows.values rows.failed
  scanned_rows (err e) = err e

  abbrev pub query_all : {S : Type 0} → Db S → Select → List Value → Exec S (List B)
  query_all db query args s = let (r, s') = db.query (select query) args s in (scanned_rows r, s')

-- `if err != nil { return err }; return a`
module _ {A : Type 0} where
  abbrev pub result_of : Result (Unit {0}) → A → Result A
  result_of (ok u) a = ok a
  result_of (err e) a = err e

  abbrev pub saved : {S : Type 0} → Exec S (Unit {0}) → A → Exec S A
  saved m a s = let (r, s') = m s in (result_of r a, s')

-- What a query found, looked up by a second one.
module _ {S A B : Type 0} (get : A → Exec S B) where
  abbrev pub some_of : Result B → Result (Option B)
  some_of (ok b) = ok (some b)
  some_of (err e) = err e

  abbrev pub follow : Result (Option A) → Exec S (Option B)
  follow (err e) s = (err e, s)
  follow (ok none) s = (ok none, s)
  follow (ok (some a)) s = let (r, s') = get a s in (some_of r, s')

  abbrev pub followed : Exec S (Option A) → Exec S (Option B)
  followed m s = let (r, s') = m s in follow r s'

-- `if limit <= 0 { limit = n }`
abbrev pub limit_or : ℤ → ℤ → ℤ
limit_or n limit = if leb_ℤ limit (pos 0) then n else limit
