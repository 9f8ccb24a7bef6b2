-- ===== src/Memory/Suppressed.antt =====
-- `IsSuppressed` of internal/store/memory/store.go does not depend on the order in which the map of
-- suppressions is visited.

use mathlib.Core.List.Permᴰ.{Permᴰ, nil, cons, swap, trans}
use agent_layer.Prelude.{
  String, Bool, true, false, some, List, [], ◌∷◌, ◌≡◌, ◌∙◌, sym, refl, ap, arith, if◌then◌else◌,
}
use agent_layer.Prelude.Exec.{ok}
use agent_layer.Prelude.Dict
use agent_layer.Prelude.Dict.{Dict, values}
use agent_layer.Domain.{SuppressedAddress}
use agent_layer.Platform.{Platform}
use agent_layer.Memory.State.{Store}
use agent_layer.Memory.Listing.{suppresses, scan_suppressed, is_suppressed}

module _ (organization_id email_address : String) where
  abbrev hit : SuppressedAddress → Bool
  hit r = suppresses organization_id email_address r

  abbrev scan : List SuppressedAddress → Bool
  scan l = scan_suppressed organization_id email_address l

  scan-cons :
      (r : SuppressedAddress) (l : List SuppressedAddress)
      → scan (r ∷ l) ≡ (if hit r then true else scan l)
  unfolding scan_suppressed
  scan-cons r l = refl

  abbrev or_else : Bool → Bool → Bool
  or_else a b = if a then true else b

  or_else_comm : (a b c : Bool) → or_else a (or_else b c) ≡ or_else b (or_else a c)
  or_else_comm true true c = refl
  or_else_comm true false c = refl
  or_else_comm false true c = refl
  or_else_comm false false c = refl

  scan-Perm : (l m : List SuppressedAddress) → Permᴰ l m → scan l ≡ scan m
  scan-Perm _ _ nil = refl
  scan-Perm (a ∷ l) (b ∷ m) (cons e p) =
      scan-cons a l
      ∙ ap (λ x. or_else (hit x) (scan l)) e
      ∙ ap (or_else (hit b)) (scan-Perm l m p)
      ∙ sym (scan-cons b m)
  scan-Perm (a ∷ b ∷ l) (c ∷ d ∷ _) (swap e f) =
      let left : scan (a ∷ b ∷ l) ≡ or_else (hit a) (or_else (hit b) (scan l)) =
        scan-cons a (b ∷ l) ∙ ap (or_else (hit a)) (scan-cons b l) in
      let right : scan (c ∷ d ∷ l) ≡ or_else (hit c) (or_else (hit d) (scan l)) =
        scan-cons c (d ∷ l) ∙ ap (or_else (hit c)) (scan-cons d l) in
      left
      ∙ or_else_comm (hit a) (hit b) (scan l)
      ∙ ap (λ x. or_else (hit x) (or_else (hit a) (scan l))) f
      ∙ ap (λ x. or_else (hit c) (or_else (hit x) (scan l))) e
      ∙ sym right
  scan-Perm l m (trans {l₂ = k} p q) = scan-Perm l k p ∙ scan-Perm k m q

  scan-get :
      (d : Dict SuppressedAddress) (k : String) (r : SuppressedAddress)
      → Dict.get d k ≡ some r
      → hit r ≡ true
      → scan (values d) ≡ true
  unfolding scan_suppressed Dict.get values
  scan-get [] k r e h = cc
  scan-get ((j, v) ∷ d) k r e h = ground (arith, scan-get d k r)

  -- A suppression that the store holds, under whatever id, suppresses the address it names in the
  -- organization it names.
  pub is_suppressed_stored :
      (platform : Platform) (s : Store) (id : String) (r : SuppressedAddress)
      → Dict.get s.suppressions_by_id id ≡ some r
      → suppresses organization_id email_address r ≡ true
      → is_suppressed platform organization_id email_address s ≡ (ok true, s)
  unfolding is_suppressed
  is_suppressed_stored platform s id r e h =
      ap (λ b. (ok b, s))
        (scan-Perm _ _ (platform.visit_perm SuppressedAddress s.suppressions_by_id)
          ∙ scan-get s.suppressions_by_id id r e h)
