-- ===== src/Postgres/Sql.antt =====
-- What internal/store/postgres uses of database/sql: statements with their arguments, the rows that
-- a query answers and their scanning into variables. A statement is the table, the columns and the
-- clauses of its text. The database and its driver are a parameter.
use agent_layer.Prelude.{String, Bool, Option, List}
use agent_layer.Prelude.Int.{ℤ}
use agent_layer.Prelude.Exec.{Exec, Error, Result}
use agent_layer.Domain.{Time, Bytes}

-- driver.Value
pub data Value : Type 0 where
  null : Value
  text : String → Value
  number : ℤ → Value
  time : Time → Value
  bytes : Bytes → Value
  boolean : Bool → Value

-- INSERT INTO `into` (`columns`) VALUES ($1, …), with ON CONFLICT (`conflict`) DO UPDATE SET the
-- columns `updated`, each to EXCLUDED's, unless `conflict` is empty.
pub record Insert : Type 0 where
  pub into : String
  pub columns : List String
  pub conflict : List String
  pub updated : List String

-- No LIMIT, LIMIT 1, and LIMIT with the last argument.
pub data Limit : Type 0 where
  unlimited : Limit
  one : Limit
  by_argument : Limit

-- SELECT `columns` FROM `from` WHERE each column of `equals` is the argument of its place, in the
-- order of the columns `descending`.
pub record Select : Type 0 where
  pub columns : List String
  pub from : String
  pub equals : List String
  pub descending : List String
  pub limit : Limit

-- SELECT EXISTS(SELECT 1 FROM `from` WHERE …)
pub data Query : Type 0 where
  select : Select → Query
  exists : String → List String → Query

-- The rows that Next goes through, and what Err returns after them.
pub record Rows : Type 0 where
  pub values : List (List Value)
  pub failed : Option Error

-- sql.DB over a state `S`, with the conversions of a scanned value that has another type than its
-- variable.
pub record Db (S : Type 0) : Type 0 where
  pub exec : Insert → List Value → Exec S Unit
  pub query : Query → List Value → Exec S Rows
  pub to_string : Value → Result String
  pub to_int : Value → Result ℤ
  pub to_bytes : Value → Result Bytes
  pub to_bool : Value → Result Bool

-- encoding/json on a list of strings, and the bytes of a string.
pub record ArrayJson : Type 0 where
  pub marshal : List String → Result Bytes
  pub unmarshal : Bytes → Result (List String)
  pub bytes_of : String → Bytes
