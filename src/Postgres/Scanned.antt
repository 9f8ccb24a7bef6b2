-- ===== src/Postgres/Scanned.antt =====
-- internal/store/postgres: the row and the columns from which a record was scanned, in contacts.go
-- and threads.go.
use agent_layer.Prelude.{String, Option, some, none, List, [], ◌∷◌, map, ◌≡◌, refl, ap, ◌∙◌, sym}
use agent_layer.Prelude.Exec.{Error, Result, ok, err}
use agent_layer.Rows.Parties.{ContactModel}
use agent_layer.Rows.Mail.{ThreadModel}
use agent_layer.Postgres.Sql.{Value, text, Db}
use agent_layer.Postgres.Scans.{
  Scan, scan_row, to_time, next, ◌>>=◌, taken, scan_then, all_taken, string_value,
}
use agent_layer.Postgres.Calls.{first_row, optional_row, found_row}
use agent_layer.Postgres.Tables.{Row}
use agent_layer.Postgres.Contacts.{scan_contact}
use agent_layer.Postgres.Threads.{scan_thread}

ok-inj : {A : Type 0} (a b : A) → ok a ≡ ok b → a ≡ b
ok-inj a b h = cc

-- A destination that was filled, and the rest of the scan.
pub next-ok :
    {A B : Type 0} (f : Value → Result A) (k : A → Scan B) (v : Value) (vs : List Value) (b : B)
    → all_taken ((next f >>= k) (v ∷ vs)) ≡ ok b
    → (a : A) × (f v ≡ ok a) × (all_taken (k a vs) ≡ ok b)
next-ok f k v vs b h = by_result (f v) refl
  where
    by_result : (r : Result _) → f v ≡ r → (a : _) × (f v ≡ ok a) × (all_taken (k a vs) ≡ ok b)
    by_result (ok a) e = (a, e, sym (ap (λ r. all_taken (scan_then (taken r vs) k)) e) ∙ h)
    by_result (err x) e =
        let c : err x ≡ ok b = sym (ap (λ r. all_taken (scan_then (taken r vs) k)) e) ∙ h in
        absurd (cc)

pub first_row-found :
    {A : Type 0} (scan : Scan A) (columns : List String) (picked : List Row) (failed : Option Error)
    (a : A)
    → first_row scan (map (λ r. map r columns) picked) failed ≡ ok (some a)
    → (r : Row) × (rest : List Row) × (picked ≡ r ∷ rest) × (scan_row scan (map r columns) ≡ ok a)
first_row-found scan columns [] none a h = absurd (cc)
first_row-found scan columns [] (some e) a h = absurd (cc)
first_row-found scan columns (r ∷ rest) failed a h =
    (r, rest, refl, by_result (scan_row scan (map r columns)) h)
  where
    by_result : (o : Result _) → found_row o ≡ ok (some a) → o ≡ ok a
    by_result (ok x) h = cc
    by_result (err x) h = absurd (cc)

pub optional-found :
    {A B : Type 0} (convert : A → B) (o : Result (Option A)) (b : B)
    → optional_row convert o ≡ ok (some b)
    → (a : A) × (o ≡ ok (some a)) × (b ≡ convert a)
optional-found convert (ok (some a)) b h = (a, refl, cc)
optional-found convert (ok none) b h = absurd (cc)
optional-found convert (err e) b h = absurd (cc)

module _ {S : Type 0} (db : Db S) where
  pub scan_contact-fields :
      (v1 v2 v3 v4 v5 v6 v7 : Value) (x : ContactModel)
      → scan_row (scan_contact db) (v1 ∷ v2 ∷ v3 ∷ v4 ∷ v5 ∷ v6 ∷ v7 ∷ []) ≡ ok x
      → (string_value db v2 ≡ ok x.organization_id) × (string_value db v3 ≡ ok x.email_address)
  scan_contact-fields v1 v2 v3 v4 v5 v6 v7 x k₀ =
      let (a₁, e₁, k₁) = next-ok (string_value db) _ v1 (v2 ∷ v3 ∷ v4 ∷ v5 ∷ v6 ∷ v7 ∷ []) x k₀ in
      let (a₂, e₂, k₂) = next-ok (string_value db) _ v2 (v3 ∷ v4 ∷ v5 ∷ v6 ∷ v7 ∷ []) x k₁ in
      let (a₃, e₃, k₃) = next-ok (string_value db) _ v3 (v4 ∷ v5 ∷ v6 ∷ v7 ∷ []) x k₂ in
      let (a₄, e₄, k₄) = next-ok (string_value db) _ v4 (v5 ∷ v6 ∷ v7 ∷ []) x k₃ in
      let (a₅, e₅, k₅) = next-ok to_time _ v5 (v6 ∷ v7 ∷ []) x k₄ in
      let (a₆, e₆, k₆) = next-ok to_time _ v6 (v7 ∷ []) x k₅ in
      let (a₇, e₇, k₇) = next-ok to_time _ v7 [] x k₆ in
      let y : ContactModel = record {
        id = a₁;
        organization_id = a₂;
        email_address = a₃;
        display_name = a₄;
        last_seen_at = a₅;
        created_at = a₆;
        updated_at = a₇;
      } in
      let same = ok-inj y x k₇ in
      (
        e₂ ∙ ap (λ (m : ContactModel). ok m.organization_id) same,
        e₃ ∙ ap (λ (m : ContactModel). ok m.email_address) same,
      )

  pub scan_thread-fields :
      (v1 v2 v3 v4 v5 v6 v7 v8 v9 v10 v11 v12 : Value) (x : ThreadModel)
      → scan_row
          (scan_thread db)
          (v1 ∷ v2 ∷ v3 ∷ v4 ∷ v5 ∷ v6 ∷ v7 ∷ v8 ∷ v9 ∷ v10 ∷ v11 ∷ v12 ∷ [])
        ≡ ok x
      → (string_value db v2 ≡ ok x.organization_id)
        × (string_value db v4 ≡ ok x.inbox_id)
        × (string_value db v5 ≡ ok x.contact_id)
        × (string_value db v6 ≡ ok x.subject_normalized)
  scan_thread-fields v1 v2 v3 v4 v5 v6 v7 v8 v9 v10 v11 v12 x k₀ =
      let (a₁, e₁, k₁) =
        next-ok (string_value db) _ v1
          (v2 ∷ v3 ∷ v4 ∷ v5 ∷ v6 ∷ v7 ∷ v8 ∷ v9 ∷ v10 ∷ v11 ∷ v12 ∷ []) x k₀ in
      let (a₂, e₂, k₂) =
        next-ok (string_value db) _ v2 (v3 ∷ v4 ∷ v5 ∷ v6 ∷ v7 ∷ v8 ∷ v9 ∷ v10 ∷ v11 ∷ v12 ∷ []) x
          k₁ in
      let (a₃, e₃, k₃) =
        next-ok (string_value db) _ v3 (v4 ∷ v5 ∷ v6 ∷ v7 ∷ v8 ∷ v9 ∷ v10 ∷ v11 ∷ v12 ∷ []) x k₂ in
      let (a₄, e₄, k₄) =
        next-ok (string_value db) _ v4 (v5 ∷ v6 ∷ v7 ∷ v8 ∷ v9 ∷ v10 ∷ v11 ∷ v12 ∷ []) x k₃ in
      let (a₅, e₅, k₅) =
        next-ok (string_value db) _ v5 (v6 ∷ v7 ∷ v8 ∷ v9 ∷ v10 ∷ v11 ∷ v12 ∷ []) x k₄ in
      let (a₆, e₆, k₆) =
        next-ok (string_value db) _ v6 (v7 ∷ v8 ∷ v9 ∷ v10 ∷ v11 ∷ v12 ∷ []) x k₅ in
      let (a₇, e₇, k₇) = next-ok (string_value db) _ v7 (v8 ∷ v9 ∷ v10 ∷ v11 ∷ v12 ∷ []) x k₆ in
      let (a₈, e₈, k₈) = next-ok (string_value db) _ v8 (v9 ∷ v10 ∷ v11 ∷ v12 ∷ []) x k₇ in
      let (a₉, e₉, k₉) = next-ok (string_value db) _ v9 (v10 ∷ v11 ∷ v12 ∷ []) x k₈ in
      let (a₁₀, e₁₀, k₁₀) = next-ok to_time _ v10 (v11 ∷ v12 ∷ []) x k₉ in
      let (a₁₁, e₁₁, k₁₁) = next-ok to_time _ v11 (v12 ∷ []) x k₁₀ in
      let (a₁₂, e₁₂, k₁₂) = next-ok to_time _ v12 [] x k₁₁ in
      let y : ThreadModel = record {
        id = a₁;
        organization_id = a₂;
        agent_id = a₃;
        inbox_id = a₄;
        contact_id = a₅;
        subject_normalized = a₆;
        state = a₇;
        last_inbound_id = a₈;
        last_outbound_id = a₉;
        last_activity_at = a₁₀;
        created_at = a₁₁;
        updated_at = a₁₂;
      } in
      let same = ok-inj y x k₁₂ in
      (
        e₂ ∙ ap (λ (m : ThreadModel). ok m.organization_id) same,
        e₄ ∙ ap (λ (m : ThreadModel). ok m.inbox_id) same,
        e₅ ∙ ap (λ (m : ThreadModel). ok m.contact_id) same,
        e₆ ∙ ap (λ (m : ThreadModel). ok m.subject_normalized) same,
      )

  pub text-read : (v : Value) (s t : String) → v ≡ text s → string_value db v ≡ ok t → t ≡ s
  text-read v s t e h = let k : ok s ≡ ok t = sym (ap (string_value db) e) ∙ h in cc
