-- ===== src/Examples/Database.antt =====
-- A database in memory that runs the statements of Postgres.Sql: a list of rows for each table.
pub mod Laws
use agent_layer.Prelude.{
  ℕ, zero, suc, ◌*◌, ◌-◌, ◌%◌, ◌<◌, ◌≤◌, String, Bool, true, false, not, ◌==◌, Option, some, none,
  List, [], ◌∷◌, map, length, take, All, All-take, length-take-le, ◌≡◌, ◌≢◌, ◌⊎◌, ◌↔◌, inl, inr,
  refl, sym, ap, ◌∙◌, eq_iff, eq_refl, arith, Bool-cases, if◌then◌else◌, Option-cases,
}
use mathlib.Core.Path.{subst}
use agent_layer.Prelude.Int.{pos, negsuc, pos_part}
use agent_layer.Prelude.Exec.{Exec, Error, Result, ok, err, failure}
use agent_layer.Domain.{Time}
use agent_layer.Postgres.Sql.{
  Value, null, text, number, time, bytes, boolean, Insert, Limit, unlimited, one, by_argument,
  Select, Query, select, exists, Rows, Db,
}
use agent_layer.Postgres.Tables.{
  Storage, Row, row_of, overwrite, among, matches, clashes, last_number, Fewer, AtMost, Member,
  IsStored, IsAnswer, IsSql,
}

abbrev pub Tables : Type 0
Tables = String → List Row

unfoldable pub keep : (Row → Bool) → List Row → List Row
keep p [] = []
keep p (r ∷ rows) = if p r then r ∷ keep p rows else keep p rows

pub keep-in :
    (p : Row → Bool) (rows : List Row) (r : Row)
    → Member r (keep p rows)
    → Member r rows × (p r ≡ true)
unfolding keep
keep-in p [] r m = elim m [ ]
keep-in p (q ∷ rows) r m = elim (Bool-cases (p q)) [
  | inl h ↦ elim (subst (λ b. Member r (if b then q ∷ keep p rows else keep p rows)) h m) [
    | inl e ↦ (inl e, ap p e ∙ h)
    | inr n ↦ let (a, b) = keep-in p rows r n in (inr a, b)
  ]
  | inr h ↦
      let (a, b) =
        keep-in p rows r (subst (λ b. Member r (if b then q ∷ keep p rows else keep p rows)) h m) in
      (inr a, b)
]

pub in-keep :
    (p : Row → Bool) (rows : List Row) (r : Row)
    → Member r rows
    → p r ≡ true
    → Member r (keep p rows)
unfolding keep
in-keep p [] r m h = elim m [ ]
in-keep p (q ∷ rows) r (inl e) h = rw (ap p (sym e) ∙ h) (inl e)
in-keep p (q ∷ rows) r (inr m) h = elim (Bool-cases (p q)) [
  | inl k ↦ rw k (inr (in-keep p rows r m h))
  | inr k ↦ rw k (in-keep p rows r m h)
]

pub for_each : (P : Row → Type 0) (rows : List Row) → ((r : Row) → Member r rows → P r) → All P rows
for_each P [] f = tt
for_each P (r ∷ rows) f = (f r (inl refl), for_each P rows (λ q m. f q (inr m)))

pub take-all : (n : ℕ) (rows : List Row) → length (take n rows) < n → take n rows ≡ rows
take-all zero rows h = absurd (omega arith)
take-all (suc n) [] h = refl
take-all (suc n) (r ∷ rows) h = ap (λ l. r ∷ l) (take-all n rows (omega arith))

abbrev pub is_time : Value → Bool
is_time (time t) = true
is_time null = false
is_time (text s) = false
is_time (number n) = false
is_time (bytes b) = false
is_time (boolean b) = false

pub is_time-time : (v : Value) → is_time v ≡ true → (t : Time) × (v ≡ time t)
is_time-time (time t) h = (t, refl)
is_time-time null h = absurd (cc)
is_time-time (text s) h = absurd (cc)
is_time-time (number n) h = absurd (cc)
is_time-time (bytes b) h = absurd (cc)
is_time-time (boolean b) h = absurd (cc)

abbrev pub created : Row → Bool
created r = is_time (r "created_at")

-- The rows of a table.
abbrev pub table : Tables → String → List Row
table s name = keep created (s name)

abbrev pub Has : Tables → String → Row → Type 0
Has s name r = Member r (table s name)

unfoldable pub clash : Insert → Row → List Row → Option Row
clash statement new [] = none
clash statement new (r ∷ rows) =
    if clashes statement r new then some r else clash statement new rows

pub clash-some :
    (statement : Insert) (new : Row) (rows : List Row) (old : Row)
    → clash statement new rows ≡ some old
    → Member old rows × (clashes statement old new ≡ true)
unfolding clash
clash-some statement new [] old h = absurd (cc)
clash-some statement new (r ∷ rows) old h = elim (Bool-cases (clashes statement r new)) [
  | inl k ↦
      let e : some r ≡ some old =
        subst (λ b. (if b then some r else clash statement new rows) ≡ some old) k h in
      let same : r ≡ old = cc in
      (inl (sym same), subst (λ q. clashes statement q new ≡ true) same k)
  | inr k ↦
      let (m, c) =
        clash-some statement new rows old
          (subst (λ b. (if b then some r else clash statement new rows) ≡ some old) k h) in
      (inr m, c)
]

pub clash-none :
    (statement : Insert) (new : Row) (rows : List Row) (old : Row)
    → clash statement new rows ≡ none
    → Member old rows
    → clashes statement old new ≡ false
unfolding clash
clash-none statement new [] old h m = elim m [ ]
clash-none statement new (r ∷ rows) old h m = elim (Bool-cases (clashes statement r new)) [
  | inl k ↦
      let e : some r ≡ none =
        subst (λ b. (if b then some r else clash statement new rows) ≡ none) k h in
      absurd (cc)
  | inr k ↦ elim m [
    | inl e ↦ ap (λ q. clashes statement q new) e ∙ k
    | inr n ↦
        clash-none statement new rows old
          (subst (λ b. (if b then some r else clash statement new rows) ≡ none) k h) n
  ]
]

abbrev pub merged : Insert → Row → Option Row → Row
merged statement new none = new
merged statement new (some old) = overwrite statement.updated old new

unfoldable pub inserted : Insert → Row → Tables → Tables
inserted statement new s name =
    if name == statement.into
    then merged statement new (clash statement new (table s name))
      ∷ keep (λ r. not (clashes statement r new)) (table s name)
    else s name

abbrev pub insert_if : Bool → Insert → Row → Exec Tables (Unit {0})
insert_if true statement new s = (ok tt, inserted statement new s)
insert_if false statement new s = (err (failure "null value in column"), s)

abbrev pub limited : Limit → List Value → List Row → List Row
limited unlimited args rows = rows
limited one args rows = take 1 rows
limited by_argument args rows = take (pos_part (last_number args)) rows

abbrev pub has_rows : List Row → Bool
has_rows [] = false
has_rows (r ∷ rows) = true

abbrev pub answer : Query → List Value → Tables → Rows
answer (select q) args s = record {
  values =
      map (λ r. map r q.columns)
        (limited q.limit args (keep (matches q.equals args) (table s q.from)));
  failed = none;
}
answer (exists name equals) args s = record {
  values = (boolean (has_rows (keep (matches equals args) (table s name))) ∷ []) ∷ [];
  failed = none;
}

-- Times are cut off to whole microseconds.
abbrev pub cut_off : Time → Time
cut_off (pos n) = pos (n - n % 1000)
cut_off (negsuc n) = negsuc n

pub cut_off_whole : (n : ℕ) → cut_off (pos (n * 1000)) ≡ pos (n * 1000)
cut_off_whole n = ap pos (omega arith)

abbrev pub storage : Storage
storage = record { rounded = cut_off; whole = cut_off_whole; document = λ n b. b }

abbrev pub database : Db Tables
database = record {
  exec = λ statement args.
      insert_if (created (row_of storage statement.columns args)) statement
        (row_of storage statement.columns args);
  query = λ q args s. (ok (answer q args s), s);
  to_string = λ v. err (failure "unsupported Scan");
  to_int = λ v. err (failure "unsupported Scan");
  to_bytes = λ v. err (failure "unsupported Scan");
  to_bool = λ v. err (failure "unsupported Scan");
}
