-- ===== src/Examples/Database/Laws.antt =====
-- The database in memory does what SQL says of the statements.
use agent_layer.Prelude.{
  String, Bool, true, false, not, ◌==◌, Option, some, none, List, [], ◌∷◌, length, All, All-take,
  length-take-le, ◌≡◌, ◌≢◌, ◌⊎◌, ◌↔◌, inl, inr, refl, sym, ap, ◌∙◌, eq_iff, eq_refl, arith,
  Bool-cases,
}
use mathlib.Core.Path.{subst}
use agent_layer.Prelude.Int.{pos_part}
use agent_layer.Prelude.Exec.{Error, ok, err}
use agent_layer.Postgres.Sql.{
  Value, Insert, Limit, unlimited, one, by_argument, Select, select, exists, Rows,
}
use agent_layer.Postgres.Tables.{
  Row, row_of, among, matches, clashes, last_number, Fewer, AtMost, Member, IsStored, IsAnswer,
  IsSql,
}
use agent_layer.Examples.Database.{
  Tables, Has, keep, keep-in, in-keep, for_each, take-all, is_time-time, created, table, clash,
  clash-some, clash-none, merged, inserted, insert_if, limited, has_rows, answer, storage, database,
}

ok-inj : (a b : Rows) → ok a ≡ ok b → a ≡ b
ok-inj a b h = cc

insert_if-ok :
    (b : Bool) (statement : Insert) (new : Row) (s s' : Tables)
    → insert_if b statement new s ≡ (ok tt, s')
    → (b ≡ true) × (inserted statement new s ≡ s')
insert_if-ok true statement new s s' h = (refl, ap (λ x. x.1) h)
insert_if-ok false statement new s s' h = let e = ap (λ x. x.0) h in absurd (cc)

insert_if-err :
    (b : Bool) (statement : Insert) (new : Row) (s s' : Tables) (e : Error)
    → insert_if b statement new s ≡ (err e, s')
    → s ≡ s'
insert_if-err false statement new s s' e h = ap (λ x. x.1) h
insert_if-err true statement new s s' e h = let k = ap (λ x. x.0) h in absurd (cc)

-- The rows of the table after an INSERT, before those without a time of creation are left out.
abbrev after : Insert → Row → Tables → List Row
after statement new s =
    merged statement new (clash statement new (table s statement.into))
    ∷ keep (λ r. not (clashes statement r new)) (table s statement.into)

inserted-into :
    (statement : Insert) (new : Row) (s : Tables)
    → inserted statement new s statement.into ≡ after statement new s
unfolding inserted
inserted-into statement new s = rw (eq_refl statement.into) refl

not-false : (b : Bool) → not b ≡ true → b ≡ false
not-false true h = cc
not-false false h = refl

merged-IsStored :
    (statement : Insert) (new : Row) (s : Tables) (o : Option Row)
    → clash statement new (table s statement.into) ≡ o
    → IsStored Has statement new s (merged statement new o)
merged-IsStored statement new s none e =
    inl (λ old m. clash-none statement new (table s statement.into) old e m, refl)
merged-IsStored statement new s (some old) e =
    let (m, c) = clash-some statement new (table s statement.into) old e in inr (old, m, c, refl)

merged-created :
    (statement : Insert) (new : Row) (s : Tables) (o : Option Row)
    → clash statement new (table s statement.into) ≡ o
    → created new ≡ true
    → created (merged statement new o) ≡ true
merged-created statement new s none e h = h
merged-created statement new s (some old) e h =
    let (m, c) = clash-some statement new (table s statement.into) old e in
    let (_, k) = keep-in created (s statement.into) old m in
    elim (Bool-cases (among "created_at" statement.updated)) [ inl a ↦ rw a h | inr a ↦ rw a k ]

inserted_row :
    (statement : Insert) (new : Row) (s s' : Tables)
    → created new ≡ true
    → inserted statement new s ≡ s'
    → (r : Row) × Has s' statement.into r × IsStored Has statement new s r
inserted_row statement new s s' c e =
    let o = clash statement new (table s statement.into) in
    (
      merged statement new o,
      subst (λ x. Has x statement.into (merged statement new o)) e
          (subst (λ l. Member (merged statement new o) (keep created l))
            (sym (inserted-into statement new s))
            (in-keep created (after statement new s) (merged statement new o) (inl refl)
              (merged-created statement new s o refl c))),
      merged-IsStored statement new s o refl,
    )

only_rows :
    (statement : Insert) (new : Row) (s s' : Tables) (r : Row)
    → inserted statement new s ≡ s'
    → Has s' statement.into r
    → IsStored Has statement new s r ⊎ (Has s statement.into r × (clashes statement r new ≡ false))
only_rows statement new s s' r e m =
    let here =
      subst (λ l. Member r (keep created l)) (inserted-into statement new s)
        (subst (λ x. Has x statement.into r) (sym e) m) in
    let (k, _) = keep-in created (after statement new s) r here in
    elim k [
      | inl same ↦ inl (
          subst (λ q. IsStored Has statement new s q) (sym same)
            (merged-IsStored statement new s (clash statement new (table s statement.into)) refl))
      | inr later ↦
          let (a, b) =
            keep-in (λ q. not (clashes statement q new)) (table s statement.into) r later in
          inr (a, not-false (clashes statement r new) b)
    ]

kept_row :
    (statement : Insert) (new : Row) (s s' : Tables) (r : Row)
    → inserted statement new s ≡ s'
    → Has s statement.into r
    → clashes statement r new ≡ false
    → Has s' statement.into r
kept_row statement new s s' r e m c =
    let (_, t) = keep-in created (s statement.into) r m in
    subst (λ x. Has x statement.into r) e
      (subst (λ l. Member r (keep created l)) (sym (inserted-into statement new s))
        (in-keep created (after statement new s) r
          (inr
            (in-keep (λ q. not (clashes statement q new)) (table s statement.into) r m (ap not c)))
          t))

other_table :
    (statement : Insert) (new : Row) (s s' : Tables) (name : String) (r : Row)
    → inserted statement new s ≡ s'
    → name ≢ statement.into
    → Has s' name r ↔ Has s name r
unfolding inserted
other_table statement new s s' name r e ne =
    let other : (name == statement.into) ≡ false = ground (arith, eq_iff name statement.into) in
    let same : inserted statement new s name ≡ s name = rw other refl in
    let both = sym (ap (λ (x : Tables). x name) e) ∙ same in
    (
      λ m. subst (λ l. Member r (keep created l)) both m,
      λ m. subst (λ l. Member r (keep created l)) (sym both) m,
    )

answer-IsAnswer :
    (q : Select) (args : List Value) (s : Tables)
    → IsAnswer Has q args s
        (answer (select q) args s)
        (limited q.limit args (keep (matches q.equals args) (table s q.from)))
answer-IsAnswer q args s = record {
  values = refl;
  found = limited-All q.limit;
  most = limited-most q.limit;
  complete = λ f short r m h.
      subst (λ l. Member r l) (sym (limited-all q.limit short))
        (in-keep (matches q.equals args) (table s q.from) r m h);
}
  where
    rows : List Row
    rows = keep (matches q.equals args) (table s q.from)

    every : All (λ r. Has s q.from r × (matches q.equals args r ≡ true)) rows
    every = for_each _ rows (λ r m. keep-in (matches q.equals args) (table s q.from) r m)

    limited-All :
        (l : Limit)
        → All (λ r. Has s q.from r × (matches q.equals args r ≡ true)) (limited l args rows)
    limited-All unlimited = every
    limited-All one = All-take _ 1 rows every
    limited-All by_argument = All-take _ (pos_part (last_number args)) rows every

    limited-most : (l : Limit) → AtMost l args (length (limited l args rows))
    limited-most unlimited = tt
    limited-most one = length-take-le 1 rows
    limited-most by_argument = length-take-le (pos_part (last_number args)) rows

    limited-all :
        (l : Limit) → Fewer l args (length (limited l args rows)) → limited l args rows ≡ rows
    limited-all unlimited h = refl
    limited-all one h = take-all 1 rows h
    limited-all by_argument h = take-all (pos_part (last_number args)) rows h

has_rows_iff :
    (rows : List Row)
    → ((r : Row) → Member r rows → has_rows rows ≡ true)
      × (has_rows rows ≡ true → (r : Row) × Member r rows)
has_rows_iff [] = (λ r m. absurd m, λ h. absurd (cc))
has_rows_iff (r ∷ rows) = (λ q m. refl, λ h. (r, inl refl))

pub database-IsSql : IsSql Has database
database-IsSql = record {
  storage = storage;
  refused = λ statement args s s' e name r h.
      let same = insert_if-err _ statement (row_of storage statement.columns args) s s' e h in
      (λ m. subst (λ x. Has x name r) (sym same) m, λ m. subst (λ x. Has x name r) same m);
  stored = λ statement args s s' h.
      let (c, e) = insert_if-ok _ statement (row_of storage statement.columns args) s s' h in
      inserted_row statement (row_of storage statement.columns args) s s' c e;
  only = λ statement args s s' r h.
      only_rows statement (row_of storage statement.columns args) s s' r
        (insert_if-ok _ statement (row_of storage statement.columns args) s s' h).1;
  kept = λ statement args s s' r h.
      kept_row statement (row_of storage statement.columns args) s s' r
        (insert_if-ok _ statement (row_of storage statement.columns args) s s' h).1;
  others = λ statement args s s' name r h.
      other_table statement (row_of storage statement.columns args) s s' name r
        (insert_if-ok _ statement (row_of storage statement.columns args) s s' h).1;
  asked = λ q args s name r. (λ m. m, λ m. m);
  answered = λ q args s rows h.
      let same : answer (select q) args s ≡ rows = ok-inj _ _ h in
      (
        limited q.limit args (keep (matches q.equals args) (table s q.from)),
        subst
            (λ a.
              IsAnswer Has q args s a
                (limited q.limit args (keep (matches q.equals args) (table s q.from))))
            same (answer-IsAnswer q args s),
      );
  tested = λ name equals args s rows h f.
      let same : answer (exists name equals) args s ≡ rows = ok-inj _ _ h in
      let picked = keep (matches equals args) (table s name) in
      let (a, b) = has_rows_iff picked in
      (
        has_rows picked,
        ap (λ (x : Rows). x.values) (sym same),
        λ r m k. a r (in-keep (matches equals args) (table s name) r m k),
        λ k.
            let (r, m) = b k in
            let (has, fits) = keep-in (matches equals args) (table s name) r m in (r, has, fits),
      );
  created = λ s name r m. is_time-time (r "created_at") (keep-in created (s name) r m).1;
}
