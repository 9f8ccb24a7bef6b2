-- ===== src/Postgres/Stored.antt =====
-- A row that an INSERT left is the one that a SELECT by the same key reads, and what it is then.
use agent_layer.Prelude.{
  ◌↔◌, String, Bool, true, false, some, none, List, [], ◌∷◌, map, ◌≡◌, ◌⊎◌, inl, inr, refl, sym, ap,
  ◌∙◌, eq_iff, arith, ◌&&◌,
}
use mathlib.Core.Path.{subst}
use agent_layer.Prelude.Exec.{Exec, Result, ok, err}
use agent_layer.Domain.{Time}
use agent_layer.Postgres.Sql.{
  Value, null, text, number, time, bytes, boolean, Insert, Select, Query, select, Rows, Db,
}
use agent_layer.Postgres.Scans.{Scan, scan_row}
use agent_layer.Postgres.Calls.{query_row, scanned_row, first_row, found_row, saved, result_of}
use agent_layer.Postgres.Tables.{
  Row, row_of, overwrite, same_value, matches, clashes, Fewer, IsStored, IsAnswer, IsSql,
}

-- The database answers a query, to its end.
abbrev pub Answers : {S : Type 0} → Db S → Query → List Value → S → Type 0
Answers db query args s =
    (rows : Rows) × ((db.query query args s).0 ≡ ok rows) × (rows.failed ≡ none)

pub same_value-text : (v : Value) (a : String) → same_value v (text a) ≡ true → v ≡ text a
same_value-text (text b) a h = ap text ((eq_iff b a).0 h)
same_value-text null a h = cc
same_value-text (number n) a h = cc
same_value-text (time t) a h = cc
same_value-text (bytes b) a h = cc
same_value-text (boolean b) a h = cc

pub same_key-text : (v : Value) (a : String) → (same_value v (text a) && true) ≡ true → v ≡ text a
same_key-text v a h = same_value-text v a (ground arith)

pub same_keys-text :
    (v w : Value) (a b : String)
    → (same_value v (text a) && (same_value w (text b) && true)) ≡ true
    → (v ≡ text a) × (w ≡ text b)
same_keys-text v w a b h = (same_value-text v a (ground arith), same_value-text w b (ground arith))

pub saved-ok :
    {S A : Type 0} (m : Exec S (Unit {0})) (a b : A) (s s' : S)
    → saved m a s ≡ (ok b, s')
    → (m s ≡ (ok tt, s')) × (b ≡ a)
saved-ok m a b s s' h = by_result (m s).0 refl
  where
    by_result : (r : Result (Unit {0})) → (m s).0 ≡ r → (m s ≡ (ok tt, s')) × (b ≡ a)
    by_result (ok u) e =
        let p : (result_of (m s).0 a ≡ ok b) = ap (λ x. x.0) h in
        let q : ((m s).1 ≡ s') = ap (λ x. x.1) h in (cc, cc)
    by_result (err x) e =
        let p : (result_of (m s).0 a ≡ ok b) = ap (λ x. x.0) h in
        let k : (err x ≡ ok b) = sym (ap (λ r. result_of r a) e) ∙ p in cc

module _ {S : Type 0} (Has : S → String → Row → Type 0) where
  -- The time of creation that a row has after an INSERT: its own if the table had no row with its
  -- key, and else the one of that row.
  abbrev pub IsCreated : Insert → Row → S → Time → Type 0
  IsCreated statement new s c =
      (((old : Row) → Has s statement.into old → clashes statement old new ≡ false)
        × (new "created_at" ≡ time c))
      ⊎ ((old : Row) × Has s statement.into old
          × (clashes statement old new ≡ true)
          × (old "created_at" ≡ time c))

  module _ (db : Db S) (sql : IsSql Has db) (statement : Insert) (args : List Value)
      (query : Select) (key : List Value) where
    -- The row of the INSERT.
    abbrev pub new_row : Row
    new_row = row_of sql.storage statement.columns args

    -- What fits the new row and every row that the INSERT meets fits the row that it leaves.
    pub fits-stored :
        (fits : Row → Bool) (s : S)
        → ((r : Row) → fits r ≡ clashes statement r new_row)
        → fits new_row ≡ true
        → ((old : Row) → fits (overwrite statement.updated old new_row) ≡ fits old)
        → (r : Row) → IsStored Has statement new_row s r
        → fits r ≡ true
    fits-stored fits s same self keeps r (inl (f, e)) = ap fits e ∙ self
    fits-stored fits s same self keeps r (inr (old, h, c, e)) = ap fits e ∙ keeps old ∙ same old ∙ c

    -- `s''` is a later state with the same rows in the table.
    answer-inserted :
        (s s' s'' : S) (rows : Rows)
        → db.exec statement args s ≡ (ok tt, s')
        → ((r : Row) → Has s'' statement.into r ↔ Has s' statement.into r)
        → query.from ≡ statement.into
        → (db.query (select query) key s'').0 ≡ ok rows
        → rows.failed ≡ none
        → Fewer query.limit key 0
        → ((r : Row) → IsStored Has statement new_row s r → matches query.equals key r ≡ true)
        → ((r : Row) → matches query.equals key r ≡ true → clashes statement r new_row ≡ true)
        → (r : Row) × IsStored Has statement new_row s r
          × (rest : List (List Value)) × (rows.values ≡ map r query.columns ∷ rest)
    answer-inserted s s' s'' rows h lasts from q f fewer fits hits =
        let (picked, a) = sql.answered query key s'' rows q in by_picked picked a
      where
        by_picked :
            (picked : List Row)
            → IsAnswer Has query key s'' rows picked
            → (r : Row) × IsStored Has statement new_row s r
              × (rest : List (List Value)) × (rows.values ≡ map r query.columns ∷ rest)
        by_picked [] a =
            let (r, has, p) = sql.stored statement args s s' h in
            absurd (
              a.complete f fewer r (subst (λ t. Has s'' t r) (sym from) ((lasts r).1 has))
                (fits r p))
        by_picked (r ∷ picked) a =
            let (has, m) = a.found.0 in
            (
              r,
              elim (sql.only statement args s s' r h
                  ((lasts r).0 (subst (λ t. Has s'' t r) from has))) [
                    | inl p ↦ p
                    | inr (_, clear) ↦
                        let c : clashes statement r new_row ≡ true = hits r m in absurd (cc)
                  ],
              map (λ q. map q query.columns) picked,
              a.values,
            )

    -- The row is read by `scan`, whether it is new or was updated.
    pub stored-read :
        {A : Type 0} (scan : Scan A) (g : Time → A) (s s' s'' : S)
        → db.exec statement args s ≡ (ok tt, s')
        → ((r : Row) → Has s'' statement.into r ↔ Has s' statement.into r)
        → query.from ≡ statement.into
        → Answers db (select query) key s''
        → Fewer query.limit key 0
        → ((r : Row) → matches query.equals key r ≡ clashes statement r new_row)
        → matches query.equals key new_row ≡ true
        → ((old : Row)
            → matches query.equals key (overwrite statement.updated old new_row)
              ≡ matches query.equals key old)
        → ((c : Time) × (new_row "created_at" ≡ time c)
            × (scan_row scan (map new_row query.columns) ≡ ok (g c)))
        → ((old : Row) (c : Time)
            → clashes statement old new_row ≡ true
            → old "created_at" ≡ time c
            → scan_row scan (map (overwrite statement.updated old new_row) query.columns)
              ≡ ok (g c))
        → (c : Time) × IsCreated statement new_row s c
          × ((query_row db scan (select query) key s'').0 ≡ ok (some (g c)))
    stored-read scan g s s' s'' h lasts from (rows, q, f) fewer same self keeps reads_new
          reads_old =
        let fits = λ (r : Row) (p : IsStored Has statement new_row s r).
          fits-stored (matches query.equals key) s same self keeps r p in
        let (r, p, rest, v) =
          answer-inserted s s' s'' rows h lasts from q f fewer fits (λ r m. sym (same r) ∙ m) in
        let run : (query_row db scan (select query) key s'').0
            ≡ first_row scan (map r query.columns ∷ rest) rows.failed =
          ap (scanned_row scan) q ∙ ap (λ l. first_row scan l rows.failed) v in
        elim p [
          | inl (fresh, e) ↦
              let (c, k, n) = reads_new in (c, inl (fresh, k), run ∙ rw e (ap found_row n))
          | inr (old, has, clash, e) ↦
              let (c, k) = sql.created s statement.into old has in
              (c, inr (old, has, clash, k), run ∙ rw e (ap found_row (reads_old old c clash k)))
        ]

    -- The same where scanning the row has one result, also an error.
    pub stored-scan :
        {A : Type 0} (scan : Scan A) (x : Result A) (s s' s'' : S)
        → db.exec statement args s ≡ (ok tt, s')
        → ((r : Row) → Has s'' statement.into r ↔ Has s' statement.into r)
        → query.from ≡ statement.into
        → Answers db (select query) key s''
        → Fewer query.limit key 0
        → ((r : Row) → matches query.equals key r ≡ clashes statement r new_row)
        → matches query.equals key new_row ≡ true
        → ((old : Row)
            → matches query.equals key (overwrite statement.updated old new_row)
              ≡ matches query.equals key old)
        → ((r : Row) → IsStored Has statement new_row s r → scan_row scan (map r query.columns) ≡ x)
        → (query_row db scan (select query) key s'').0 ≡ found_row x
    stored-scan scan x s s' s'' h lasts from (rows, q, f) fewer same self keeps reads =
        let fits = λ (r : Row) (p : IsStored Has statement new_row s r).
          fits-stored (matches query.equals key) s same self keeps r p in
        let (r, p, rest, v) =
          answer-inserted s s' s'' rows h lasts from q f fewer fits (λ r m. sym (same r) ∙ m) in
        ap (scanned_row scan) q
        ∙ ap (λ l. first_row scan l rows.failed) v
        ∙ ap found_row (reads r p)
