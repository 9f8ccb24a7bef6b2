-- ===== src/Postgres/Tables.antt =====
-- What the store relies on in Postgres: the documented meaning of the statements of Sql, over the
-- rows that a state of the database has in each table.
use agent_layer.Prelude.{
  ℕ, ◌*◌, ◌<◌, ◌≤◌, String, Bool, true, false, ◌&&◌, ◌||◌, ◌==◌, none, List, [], ◌∷◌, map, length,
  All, ◌≡◌, ◌≢◌, ◌⊎◌, ◌↔◌, if◌then◌else◌,
}
use agent_layer.Prelude.Int.{ℤ, pos, pos_part}
use agent_layer.Prelude.Exec.{Error, ok, err}
use agent_layer.Domain.{Time, Bytes}
use agent_layer.Postgres.Sql.{
  Value, null, text, number, time, bytes, boolean, Insert, Limit, unlimited, one, by_argument,
  Select, Query, select, exists, Rows, Db,
}

-- A row has a value in each column.
abbrev pub Row : Type 0
Row = String → Value

-- How the columns keep what they are given: a TIMESTAMPTZ keeps a time to the microsecond, so that a
-- time of whole microseconds is kept as it is, and a JSONB column may write a document in another way.
pub record Storage : Type 0 where
  pub rounded : Time → Time
  pub whole : (n : ℕ) → rounded (pos (n * 1000)) ≡ pos (n * 1000)
  pub document : String → Bytes → Bytes

-- What the column of the name keeps.
abbrev pub held : Storage → String → Value → Value
held storage n null = null
held storage n (text s) = text s
held storage n (number i) = number i
held storage n (time t) = time (storage.rounded t)
held storage n (bytes b) = bytes (storage.document n b)
held storage n (boolean b) = boolean b

-- The row of an INSERT.
abbrev pub row_of : Storage → List String → List Value → Row
row_of storage [] args c = null
row_of storage (n ∷ columns) [] c = null
row_of storage (n ∷ columns) (v ∷ args) c =
    if n == c then held storage n v else row_of storage columns args c

abbrev pub among : String → List String → Bool
among c [] = false
among c (n ∷ columns) = n == c || among c columns

-- The row that ON CONFLICT DO UPDATE makes of an old one.
abbrev pub overwrite : List String → Row → Row → Row
overwrite updated old new c = if among c updated then new c else old c

-- Equality in SQL, on the texts that the statements compare; NULL equals nothing.
abbrev pub same_value : Value → Value → Bool
same_value (text a) (text b) = a == b
same_value (text a) other = false
same_value null other = false
same_value (number n) other = false
same_value (time t) other = false
same_value (bytes b) other = false
same_value (boolean b) other = false

-- WHERE
abbrev pub matches : List String → List Value → Row → Bool
matches [] args r = true
matches (c ∷ columns) [] r = false
matches (c ∷ columns) (v ∷ args) r = same_value (r c) v && matches columns args r

abbrev pub same_key : List String → Row → Row → Bool
same_key [] r q = true
same_key (c ∷ columns) r q = same_value (r c) (q c) && same_key columns r q

-- Whether an INSERT with ON CONFLICT meets a row.
abbrev pub clashes : Insert → Row → Row → Bool
clashes statement r new = elim statement.conflict [
  | [] ↦ false
  | c ∷ columns ↦ same_key (c ∷ columns) r new
]

abbrev pub last_number : List Value → ℤ
last_number [] = pos 0
last_number (v ∷ w ∷ args) = last_number (w ∷ args)
last_number (number n ∷ []) = n
last_number (null ∷ []) = pos 0
last_number (text s ∷ []) = pos 0
last_number (time t ∷ []) = pos 0
last_number (bytes b ∷ []) = pos 0
last_number (boolean b ∷ []) = pos 0

-- The most rows that a query answers, and whether it has answered fewer.
abbrev pub AtMost : Limit → List Value → ℕ → Type 0
AtMost unlimited args n = Unit {0}
AtMost one args n = n ≤ 1
AtMost by_argument args n = n ≤ pos_part (last_number args)

abbrev pub Fewer : Limit → List Value → ℕ → Type 0
Fewer unlimited args n = Unit {0}
Fewer one args n = n < 1
Fewer by_argument args n = n < pos_part (last_number args)

abbrev pub Member : Row → List Row → Type 0
Member r [] = ⊥
Member r (q ∷ rows) = (r ≡ q) ⊎ Member r rows

module _ {S : Type 0} (Has : S → String → Row → Type 0) where
  -- The row that is in the table after an INSERT.
  abbrev pub IsStored : Insert → Row → S → Row → Type 0
  IsStored statement new s r =
      (((old : Row) → Has s statement.into old → clashes statement old new ≡ false) × (r ≡ new))
      ⊎ ((old : Row) × Has s statement.into old
          × (clashes statement old new ≡ true)
          × (r ≡ overwrite statement.updated old new))

  -- The rows that a SELECT picks.
  pub record IsAnswer (query : Select) (args : List Value) (s : S) (rows : Rows) (picked : List Row)
      : Type 0 where
    pub values : rows.values ≡ map (λ r. map r query.columns) picked
    pub found : All (λ r. Has s query.from r × (matches query.equals args r ≡ true)) picked
    pub most : AtMost query.limit args (length picked)
    pub complete :
        rows.failed ≡ none
        → Fewer query.limit args (length picked)
        → (r : Row) → Has s query.from r
        → matches query.equals args r ≡ true
        → Member r picked

  -- An INSERT that fails, and a query, change no row; one that returns leaves its row, drops the row
  -- that it updates, and keeps every other. Every table declares `created_at` TIMESTAMPTZ NOT NULL.
  pub record IsSql (db : Db S) : Type 0 where
    pub storage : Storage
    pub refused :
        (statement : Insert) (args : List Value) (s s' : S) (e : Error) (table : String) (r : Row)
        → db.exec statement args s ≡ (err e, s')
        → Has s' table r ↔ Has s table r
    pub stored :
        (statement : Insert) (args : List Value) (s s' : S)
        → db.exec statement args s ≡ (ok tt, s')
        → (r : Row) × Has s' statement.into r
          × IsStored statement (row_of storage statement.columns args) s r
    pub only :
        (statement : Insert) (args : List Value) (s s' : S) (r : Row)
        → db.exec statement args s ≡ (ok tt, s')
        → Has s' statement.into r
        → IsStored statement (row_of storage statement.columns args) s r
          ⊎ (Has s statement.into r
              × (clashes statement r (row_of storage statement.columns args) ≡ false))
    pub kept :
        (statement : Insert) (args : List Value) (s s' : S) (r : Row)
        → db.exec statement args s ≡ (ok tt, s')
        → Has s statement.into r
        → clashes statement r (row_of storage statement.columns args) ≡ false
        → Has s' statement.into r
    pub others :
        (statement : Insert) (args : List Value) (s s' : S) (table : String) (r : Row)
        → db.exec statement args s ≡ (ok tt, s')
        → table ≢ statement.into
        → Has s' table r ↔ Has s table r
    pub asked :
        (query : Query) (args : List Value) (s : S) (table : String) (r : Row)
        → Has (db.query query args s).1 table r ↔ Has s table r
    pub answered :
        (query : Select) (args : List Value) (s : S) (rows : Rows)
        → (db.query (select query) args s).0 ≡ ok rows
        → (picked : List Row) × IsAnswer query args s rows picked
    pub tested :
        (table : String) (equals : List String) (args : List Value) (s : S) (rows : Rows)
        → (db.query (exists table equals) args s).0 ≡ ok rows
        → rows.failed ≡ none
        → (b : Bool) × (rows.values ≡ (boolean b ∷ []) ∷ [])
          × ((r : Row) → Has s table r → matches equals args r ≡ true → b ≡ true)
          × (b ≡ true → (r : Row) × Has s table r × (matches equals args r ≡ true))
    pub created :
        (s : S) (table : String) (r : Row) → Has s table r → (t : Time) × (r "created_at" ≡ time t)
