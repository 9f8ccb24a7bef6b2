-- ===== src/Parser/Subject.antt =====
-- internal/parser/parser.go: `normalizeSubject`. A slice `normalized[3:]` drops characters, since
-- the prefix it follows is of one-byte characters: no character beyond ASCII lowers to one of
-- `r`, `e`, `f`, `w`, `d` and the colon.
use Prim.Native.String.{[], ◌∷◌}
use agent_layer.Prelude.{
  ℕ, zero, suc, ◌<◌, ◌≤◌, String, true, false, Option, none, some, if◌then◌else◌, ◌≡◌, refl, arith,
  Option-cases, Bool-cases, inl, inr, ◌⊎◌,
}
use agent_layer.Text.{
  Unicode, to_lower, trim_left, trim_right, cons_trimmed, trim_space, has_prefix, drop, size,
  space_char,
}

size-trim_left : (unicode : Unicode) (s : String) → size (trim_left unicode s) ≤ size s
unfolding trim_left size
size-trim_left unicode [] = omega arith
size-trim_left unicode (c ∷ s) = ground (arith, size-trim_left unicode s)

size-cons_trimmed :
    (unicode : Unicode) (c : _) (s : String) → size (cons_trimmed unicode c s) ≤ suc (size s)
unfolding size
size-cons_trimmed unicode c [] = elim (Bool-cases (space_char unicode c)) [
  | inl e ↦ rw e (omega arith)
  | inr e ↦ rw e (omega arith)
]
size-cons_trimmed unicode c (d ∷ s) = omega arith

size-trim_right : (unicode : Unicode) (s : String) → size (trim_right unicode s) ≤ size s
unfolding trim_right size
size-trim_right unicode [] = omega arith
size-trim_right unicode (c ∷ s) =
    omega (arith, size-cons_trimmed unicode c (trim_right unicode s), size-trim_right unicode s)

pub size-trim_space : (unicode : Unicode) (s : String) → size (trim_space unicode s) ≤ size s
unfolding trim_space
size-trim_space unicode s =
    omega (arith, size-trim_left unicode (trim_right unicode s), size-trim_right unicode s)

size-drop : (n : ℕ) (s : String) → size (drop n s) ≤ size s
unfolding drop size
size-drop zero s = omega arith
size-drop (suc n) [] = omega arith
size-drop (suc n) (c ∷ s) = omega (arith, size-drop n s)

module _ (unicode : Unicode) where
  -- One round of the loop: what is left once a prefix was taken off, or none in the default case.
  unfoldable pub stripped : String → Option String
  stripped s =
      let lower = to_lower unicode s in
      if has_prefix lower "re:"
      then some (trim_space unicode (drop 3 s))
      else if has_prefix lower "fwd:"
      then some (trim_space unicode (drop 4 s))
      else if has_prefix lower "fw:"
      then some (trim_space unicode (drop 3 s))
      else none

  -- The loop, for as many rounds as there is fuel.
  unfoldable pub normalize_from : ℕ → String → String
  normalize_from zero s = to_lower unicode s
  normalize_from (suc fuel) s = elim (stripped s) [
    | some t ↦ normalize_from fuel t
    | none ↦ to_lower unicode s
  ]

  unfoldable pub normalize_subject : String → String
  normalize_subject subject = normalize_from (suc (size subject)) (trim_space unicode subject)

  size-dropped :
      (n : ℕ) (s t : String)
      → has_prefix (to_lower unicode s) t ≡ true
      → 0 < size t
      → size (trim_space unicode (drop (suc n) s)) < size s
  unfolding has_prefix to_lower drop size
  size-dropped n s [] h p = absurd (omega arith)
  size-dropped n [] (d ∷ t) h p = cc
  size-dropped n (c ∷ s) (d ∷ t) h p =
      omega (arith, size-trim_space unicode (drop n s), size-drop n s)

  -- Each round makes the text shorter.
  pub size-stripped : (s t : String) → stripped s ≡ some t → size t < size s
  unfolding stripped size
  size-stripped s t e =
      ground (arith, size-dropped 2 s "re:", size-dropped 3 s "fwd:", size-dropped 2 s "fw:")

  -- The text begins, in whatever case, with one of the three prefixes, and the other one is what
  -- follows that prefix, trimmed.
  abbrev pub TakesOff : String → String → Type 0
  TakesOff s t =
      ((has_prefix (to_lower unicode s) "re:" ≡ true) × (t ≡ trim_space unicode (drop 3 s)))
      ⊎ ((has_prefix (to_lower unicode s) "fwd:" ≡ true) × (t ≡ trim_space unicode (drop 4 s)))
      ⊎ ((has_prefix (to_lower unicode s) "fw:" ≡ true) × (t ≡ trim_space unicode (drop 3 s)))

  -- The text begins with none of them.
  abbrev pub IsBare : String → Type 0
  IsBare s =
      (has_prefix (to_lower unicode s) "re:" ≡ false)
      × (has_prefix (to_lower unicode s) "fwd:" ≡ false)
      × (has_prefix (to_lower unicode s) "fw:" ≡ false)

  stripped-TakesOff : (s t : String) → stripped s ≡ some t → TakesOff s t
  unfolding stripped
  stripped-TakesOff s t e = ground arith

  stripped-IsBare : (s : String) → stripped s ≡ none → IsBare s
  unfolding stripped
  stripped-IsBare s e = (ground arith, ground arith, ground arith)

  -- The rounds that lead from a text to one that is left.
  pub data Strips : String → String → Type 0 where
    done : (s : String) → Strips s s
    round : (s t u : String) → TakesOff s t → Strips t u → Strips s u

  -- The loop ends by its own test: with more fuel than the text has characters, what it returns
  -- is the lower case of a text that the rounds lead to and that has no prefix left.
  pub normalize_from-Strips :
      (fuel : ℕ) (s : String)
      → size s < fuel
      → (t : String) × Strips s t × IsBare t × (normalize_from fuel s ≡ to_lower unicode t)
  unfolding normalize_from
  normalize_from-Strips zero s h = absurd (omega arith)
  normalize_from-Strips (suc fuel) s h = elim (Option-cases (stripped s)) [
    | inl e ↦ (s, Strips.done s, stripped-IsBare s e, rw (normalize_from, e) refl)
    | inr (t, e) ↦
        let (u, r, p, q) = normalize_from-Strips fuel t (omega (arith, size-stripped s t e)) in
        (u, Strips.round s t u (stripped-TakesOff s t e) r, p, rw (normalize_from, e) q)
  ]

  -- What is returned does not depend on the fuel.
  pub normalize_from-fuel :
      (m n : ℕ) (s : String) → size s < m → size s < n → normalize_from m s ≡ normalize_from n s
  unfolding normalize_from
  normalize_from-fuel zero n s h k = absurd (omega arith)
  normalize_from-fuel (suc m) zero s h k = absurd (omega arith)
  normalize_from-fuel (suc m) (suc n) s h k = elim (Option-cases (stripped s)) [
    | inl e ↦ rw (normalize_from, e) refl
    | inr (t, e) ↦
        rw (normalize_from, e)
          (normalize_from-fuel m n t (omega (arith, size-stripped s t e))
            (omega (arith, size-stripped s t e)))
  ]

  -- Normalizing any subject ends: rounds that each take one of the prefixes re:, fwd: and fw:, in
  -- whatever case, and the space after it off lead from the trimmed subject to a text that begins with
  -- none of them, and its lower case is returned.
  pub normalize_subject-Strips :
      (s : String)
      → (t : String) × Strips (trim_space unicode s) t
        × IsBare t
        × (normalize_subject s ≡ to_lower unicode t)
  unfolding normalize_subject
  normalize_subject-Strips s =
      normalize_from-Strips (suc (size s)) (trim_space unicode s)
        (omega (arith, size-trim_space unicode s))

  -- What is returned begins with none of the prefixes.
  normalize_subject-clean :
      (s : String)
      → (has_prefix (normalize_subject s) "re:" ≡ false)
        × (has_prefix (normalize_subject s) "fwd:" ≡ false)
        × (has_prefix (normalize_subject s) "fw:" ≡ false)
  normalize_subject-clean s = let (t, r, p, q) = normalize_subject-Strips s in rw q p
