-- ===== src/Postgres/Scans.antt =====
-- The values that internal/store/postgres passes to the driver and scans out of a row: array.go,
-- nulls.go and what database/sql does with a destination.
use agent_layer.Prelude.{String, Bool, List, [], ◌∷◌, if◌then◌else◌}
use agent_layer.Prelude.Int.{ℤ}
use agent_layer.Prelude.Exec.{Result, ok, err, failure}
use agent_layer.Domain.{Time, Bytes, zero_time, is_zero}
use agent_layer.Postgres.Sql.{Value, null, text, number, time, bytes, boolean, Db, ArrayJson}

-- nullableTime
abbrev pub nullable_time : Time → Value
nullable_time t = if is_zero t then null else time t

-- stringArrayValue.Value
abbrev pub array_bytes : Result Bytes → Result Value
array_bytes (ok b) = ok (bytes b)
array_bytes (err e) = err e

abbrev pub array_value : ArrayJson → List String → Result Value
array_value json values = array_bytes (json.marshal values)

-- stringArrayScan.Scan
abbrev pub array_scan : ArrayJson → Value → Result (List String)
array_scan json null = ok []
array_scan json (bytes b) = json.unmarshal b
array_scan json (text s) = json.unmarshal (json.bytes_of s)
array_scan json (number n) = err (failure "unsupported array scan type")
array_scan json (time t) = err (failure "unsupported array scan type")
array_scan json (boolean b) = err (failure "unsupported array scan type")

-- Scanning: each destination takes the next value of the row.
abbrev pub Scan : Type 0 → Type 0
Scan A = List Value → Result (A × List Value)

module _ {A B : Type 0} where
  abbrev pub scan_then : Result (A × List Value) → (A → Scan B) → Result (B × List Value)
  scan_then (ok (a, rest)) f = f a rest
  scan_then (err e) f = err e

  infixl 10 ◌>>=◌
  abbrev pub ◌>>=◌ : Scan A → (A → Scan B) → Scan B
  ◌>>=◌ m f row = scan_then (m row) f

abbrev pub done : {A : Type 0} → A → Scan A
done a rest = ok (a, rest)

abbrev pub taken : {A : Type 0} → Result A → List Value → Result (A × List Value)
taken (ok a) rest = ok (a, rest)
taken (err e) rest = err e

abbrev pub next : {A : Type 0} → (Value → Result A) → Scan A
next f [] = err (failure "expected fewer destination arguments in Scan")
next f (v ∷ rest) = taken (f v) rest

-- A time.Time takes a time only, and a NULL is refused.
abbrev pub to_time : Value → Result Time
to_time (time t) = ok t
to_time null = err (failure "converting NULL to time.Time is unsupported")
to_time (text s) = err (failure "unsupported Scan")
to_time (number n) = err (failure "unsupported Scan")
to_time (bytes b) = err (failure "unsupported Scan")
to_time (boolean b) = err (failure "unsupported Scan")

-- sql.NullTime, read as the zero time where it is not valid.
abbrev pub to_null_time : Value → Result Time
to_null_time null = ok zero_time
to_null_time (time t) = ok t
to_null_time (text s) = err (failure "unsupported Scan")
to_null_time (number n) = err (failure "unsupported Scan")
to_null_time (bytes b) = err (failure "unsupported Scan")
to_null_time (boolean b) = err (failure "unsupported Scan")

module _ {S : Type 0} (db : Db S) where
  abbrev pub string_value : Value → Result String
  string_value (text s) = ok s
  string_value null = err (failure "converting NULL to string is unsupported")
  string_value (number n) = db.to_string (number n)
  string_value (time t) = db.to_string (time t)
  string_value (bytes b) = db.to_string (bytes b)
  string_value (boolean b) = db.to_string (boolean b)

  abbrev pub int_value : Value → Result ℤ
  int_value (number n) = ok n
  int_value null = err (failure "converting NULL to int is unsupported")
  int_value (text s) = db.to_int (text s)
  int_value (time t) = db.to_int (time t)
  int_value (bytes b) = db.to_int (bytes b)
  int_value (boolean b) = db.to_int (boolean b)

  abbrev pub bytes_value : Value → Result Bytes
  bytes_value (bytes b) = ok b
  bytes_value null = ok []
  bytes_value (text s) = db.to_bytes (text s)
  bytes_value (number n) = db.to_bytes (number n)
  bytes_value (time t) = db.to_bytes (time t)
  bytes_value (boolean b) = db.to_bytes (boolean b)

  abbrev pub bool_value : Value → Result Bool
  bool_value (boolean b) = ok b
  bool_value null = err (failure "couldn't convert <nil> into type bool")
  bool_value (text s) = db.to_bool (text s)
  bool_value (number n) = db.to_bool (number n)
  bool_value (time t) = db.to_bool (time t)
  bool_value (bytes b) = db.to_bool (bytes b)

  abbrev pub string_dest : Scan String
  string_dest = next string_value

  abbrev pub int_dest : Scan ℤ
  int_dest = next int_value

  abbrev pub bytes_dest : Scan Bytes
  bytes_dest = next bytes_value

abbrev pub time_dest : Scan Time
time_dest = next to_time

abbrev pub null_time_dest : Scan Time
null_time_dest = next to_null_time

-- The destinations are as many as the columns.
abbrev pub all_taken : {A : Type 0} → Result (A × List Value) → Result A
all_taken (ok (a, [])) = ok a
all_taken (ok (a, v ∷ rest)) = err (failure "expected more destination arguments in Scan")
all_taken (err e) = err e

abbrev pub scan_row : {A : Type 0} → Scan A → List Value → Result A
scan_row m row = all_taken (m row)
