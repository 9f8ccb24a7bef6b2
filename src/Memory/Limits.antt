-- ===== src/Memory/Limits.antt =====
-- What the lists of internal/store/memory/store.go return: they sort what the map holds and cut it
-- off at the limit.
use Prim.Native.Nat.{Ordering}
use Prim.Native.String.{compare}
use mathlib.Core.List.Permᴰ
use mathlib.Core.List.Permᴰ.{Permᴰ, nil, cons, swap, trans}
use agent_layer.Prelude.{
  ℕ, zero, suc, ◌≤◌, ◌<◌, String, Bool, true, false, List, [], ◌∷◌, ◌++◌, length, take,
  length-take-le, inl, inr, Bool-cases, ◌≡◌, refl, ap, arith, ◌&&◌, ◌⊎◌, ◌≢◌, if◌then◌else◌,
}
use agent_layer.Prelude.Int.{pos, negsuc, ltb_ℤ, eqb_ℤ}
use agent_layer.Prelude.Exec.{ok}
use agent_layer.Prelude.Dict.{values}
use agent_layer.Domain.{Time, WebhookDelivery}
use agent_layer.Platform.{Platform}
use agent_layer.Text.Order.{flip, compare-flip}
use agent_layer.Memory.State.{Store}
use agent_layer.Memory.Listing.{
  insert, sort_slice, limited, newer, string_after, newer_delivery, list_webhook_deliveries,
}

-- Each element of the list stands in the relation to the next one.
abbrev pub Ordered : {A : Type 0} → (A → A → Type 0) → List A → Type 0
Ordered R [] = Unit
Ordered R (a ∷ []) = Unit
Ordered R (a ∷ b ∷ l) = R a b × Ordered R (b ∷ l)

Ordered-map :
    {A : Type 0} (R Q : A → A → Type 0)
    → ((a b : A) → R a b → Q a b)
    → (l : List A) → Ordered R l
    → Ordered Q l
Ordered-map R Q f [] h = tt
Ordered-map R Q f (a ∷ []) h = tt
Ordered-map R Q f (a ∷ b ∷ l) (p, h) = (f a b p, Ordered-map R Q f (b ∷ l) h)

-- The second is not to come before the first.
abbrev NotLess : {A : Type 0} → (A → A → Bool) → A → A → Type 0
NotLess less a b = less b a ≡ false

-- The first delivery was updated later than the second one, or at the same time and its id is not
-- below that of the second.
abbrev pub NotOlder : WebhookDelivery → WebhookDelivery → Type 0
NotOlder a b =
    (ltb_ℤ b.updated_at a.updated_at ≡ true)
    ⊎ ((a.updated_at ≡ b.updated_at) × (compare b.id a.id ≢ Ordering.gt))

-- The first page of a collection: at most `n` elements, and with the others that the collection has
-- they are in order, so that they are the first.
pub record IsPage {A : Type 0} (R : A → A → Type 0) (n : ℕ) (all page : List A) : Type 0 where
  pub rest : List A
  pub short : length page ≤ n
  pub ordered : Ordered R (page ++ rest)
  pub complete : Permᴰ (page ++ rest) all

module _ {A : Type 0} (less : A → A → Bool) where
  insert-Permᴰ : (a : A) (l : List A) → Permᴰ (insert less a l) (a ∷ l)
  unfolding insert
  insert-Permᴰ a [] = Permᴰ.refl _
  insert-Permᴰ a (b ∷ l) = elim (Bool-cases (less b a)) [
    | inl e ↦ rw e (trans (cons refl (insert-Permᴰ a l)) (swap refl refl))
    | inr e ↦ rw e (Permᴰ.refl _)
  ]

  sort_slice-Permᴰ : (l : List A) → Permᴰ (sort_slice less l) l
  unfolding sort_slice
  sort_slice-Permᴰ [] = nil
  sort_slice-Permᴰ (a ∷ l) =
      trans (insert-Permᴰ a (sort_slice less l)) (cons refl (sort_slice-Permᴰ l))

module _ {A : Type 0} (less : A → A → Bool)
    (asym : (a b : A) → less a b ≡ true → less b a ≡ false) where
  insert-Ordered :
      (a : A) (l : List A) → Ordered (NotLess less) l → Ordered (NotLess less) (insert less a l)
  unfolding insert
  insert-Ordered a [] h = tt
  insert-Ordered a (b ∷ []) h = elim (Bool-cases (less b a)) [
    | inl e ↦ rw e (asym b a e, tt)
    | inr e ↦ rw e (e, tt)
  ]
  insert-Ordered a (b ∷ c ∷ l) (p, h) =
      let later = insert-Ordered a (c ∷ l) h in
      elim (Bool-cases (less b a)) [
        | inl e ↦ elim (Bool-cases (less c a)) [
          | inl f ↦ rw (e, f) (p, rw f at later)
          | inr f ↦ rw (e, f) (asym b a e, (f, h))
        ]
        | inr e ↦ rw e (e, (p, h))
      ]

  sort_slice-Ordered : (l : List A) → Ordered (NotLess less) (sort_slice less l)
  unfolding sort_slice
  sort_slice-Ordered [] = tt
  sort_slice-Ordered (a ∷ l) = insert-Ordered a (sort_slice less l) (sort_slice-Ordered l)

abbrev drop : {A : Type 0} → ℕ → List A → List A
drop zero l = l
drop (suc n) [] = []
drop (suc n) (a ∷ l) = drop n l

take-drop : {A : Type 0} (n : ℕ) (l : List A) → take n l ++ drop n l ≡ l
take-drop zero l = refl
take-drop (suc n) [] = refl
take-drop (suc n) (a ∷ l) = ap (λ t. a ∷ t) (take-drop n l)

append_nil : {A : Type 0} (l : List A) → l ++ [] ≡ l
append_nil [] = refl
append_nil (a ∷ l) = ap (λ t. a ∷ t) (append_nil l)

limited-IsPage :
    {A : Type 0} (R : A → A → Type 0) (n : ℕ) (l all : List A)
    → 0 < n
    → Ordered R l
    → Permᴰ l all
    → IsPage R n all (limited (pos n) l)
unfolding limited
limited-IsPage R n l all h o p =
    elim (Bool-cases (ltb_ℤ (pos 0) (pos n) && ltb_ℤ (pos n) (pos (length l)))) [
      | inl e ↦ rw e (record {
        rest = drop n l;
        short = length-take-le n l;
        ordered = rw (take-drop n l) o;
        complete = rw (take-drop n l) p;
      })
      | inr e ↦ rw e (record {
        rest = [];
        short = short_enough e;
        ordered = rw (append_nil l) o;
        complete = rw (append_nil l) p;
      })
    ]
  where
    short_enough : (ltb_ℤ (pos 0) (pos n) && ltb_ℤ (pos n) (pos (length l))) ≡ false → length l ≤ n
    short_enough e = ground (arith, h)

string_after_asym : (a b : String) → string_after a b ≡ true → string_after b a ≡ false
string_after_asym a b h = opposite (compare a b) (compare-flip a b) h
  where
    opposite :
        (o : Ordering)
        → compare b a ≡ flip o
        → elim o as (λ x. Bool) [ Ordering.gt ↦ true | _ ↦ false ] ≡ true
        → string_after b a ≡ false
    opposite Ordering.lt e h = cc
    opposite Ordering.eq e h = cc
    opposite Ordering.gt e h = rw (string_after, e) refl

newer_asym : (t u : Time) (a b : String) → newer t a u b ≡ true → newer u b t a ≡ false
newer_asym t u a b h = ground (arith, string_after_asym a b)

not-after-ne : (a b : String) → string_after a b ≡ false → compare a b ≢ Ordering.gt
not-after-ne a b h e = let k : string_after a b ≡ true = rw (string_after, e) refl in cc

later-or-same :
    (t u : Time) (after_id : Bool)
    → (if eqb_ℤ t u then after_id else ltb_ℤ u t) ≡ false
    → (ltb_ℤ t u ≡ true) ⊎ ((u ≡ t) × (after_id ≡ false))
later-or-same (pos t) (pos u) b h = ground arith
later-or-same (pos t) (negsuc u) b h = ground arith
later-or-same (negsuc t) (pos u) b h = ground arith
later-or-same (negsuc t) (negsuc u) b h = ground arith

newer_delivery-NotOlder : (a b : WebhookDelivery) → newer_delivery b a ≡ false → NotOlder a b
newer_delivery-NotOlder a b h =
    elim (later-or-same b.updated_at a.updated_at (string_after b.id a.id) h) [
      | inl later ↦ inl later
      | inr (same, ids) ↦ inr (same, not-after-ne b.id a.id ids)
    ]

pub list_webhook_deliveries-IsPage :
    (platform : Platform) (n : ℕ) (s : Store)
    → 0 < n
    → (out : List WebhookDelivery) × (list_webhook_deliveries platform (pos n) s ≡ (ok out, s))
      × IsPage NotOlder n (values s.webhook_deliveries_by_id) out
unfolding list_webhook_deliveries
list_webhook_deliveries-IsPage platform n s h =
    let all = platform.visit WebhookDelivery s.webhook_deliveries_by_id in
    (
      _,
      refl,
      limited-IsPage NotOlder n (sort_slice newer_delivery all) (values s.webhook_deliveries_by_id)
          h
          (Ordered-map (NotLess newer_delivery) NotOlder newer_delivery-NotOlder _ (
            sort_slice-Ordered newer_delivery
              (λ a b. newer_asym a.updated_at b.updated_at a.id b.id) all))
          (trans (sort_slice-Permᴰ newer_delivery all)
            (platform.visit_perm WebhookDelivery s.webhook_deliveries_by_id)),
    )
