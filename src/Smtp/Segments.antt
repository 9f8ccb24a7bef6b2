-- ===== src/Smtp/Segments.antt =====
-- internal/smtpedge/identifiers.go: what a segment of the key of a raw message may hold.
use Prim.Native.Char.{Char, char, code}
use Prim.Native.String.{[], ◌∷◌}
use mathlib.Core.Logic.{dite}
use native.Mathlib.Decide.{dec_lt}
use agent_layer.Prelude.{
  ℕ, ◌+◌, ◌<◌, String, Bool, true, false, ◌&&◌, ◌||◌, ◌==◌, ◌≡◌, refl, leb, nat_eq, arith,
  Bool-cases, inl, inr,
}
use agent_layer.Text.{Unicode, trim_space, to_ascii_lower, ascii-IsScalar}
use agent_layer.Smtp.Identifiers.{
  between, is_hyphen, sanitized, sanitize_all, trim_hyphens_left, trim_hyphens_right,
  cons_unhyphened, sanitize_path_segment,
}

-- A character that a segment may hold: a to z, 0 to 9, the hyphen and the underscore.
abbrev pub is_safe_code : ℕ → Bool
is_safe_code n = leb 97 n && leb n 122 || leb 48 n && leb n 57 || nat_eq n 45 || nat_eq n 95

abbrev pub is_safe : Char → Bool
is_safe c = is_safe_code (code c)

abbrev pub all_safe : String → Bool
all_safe [] = true
all_safe (c ∷ s) = is_safe c && all_safe s

abbrev pub starts_hyphened : String → Bool
starts_hyphened [] = false
starts_hyphened (c ∷ s) = is_hyphen c

abbrev pub ends_hyphened : String → Bool
ends_hyphened [] = false
ends_hyphened (c ∷ []) = is_hyphen c
ends_hyphened (c ∷ d ∷ s) = ends_hyphened (d ∷ s)

lowered :
    (c : Char) (d : Dec (code c < 91))
    → code c < 91
    → code (dite d (λ h. char (code c + 32) (ascii-IsScalar (code c + 32) (omega arith))) (λ _. c))
      ≡ code c + 32
lowered c (yes h) _ = refl
lowered c (no h) k = absurd (h k)

to_ascii_lower-code : (c : Char) → code c < 91 → code (to_ascii_lower c) ≡ code c + 32
unfolding to_ascii_lower
to_ascii_lower-code c h = lowered c (dec_lt (code c) 91) h

sanitized-IsSafe : (c : Char) → is_safe (sanitized c) ≡ true
unfolding sanitized
sanitized-IsSafe c = elim (Bool-cases (between 97 122 c)) [
  | inl a ↦ rw (sanitized, a) (ground (arith, a))
  | inr a ↦ elim (Bool-cases (between 65 90 c)) [
    | inl b ↦
        let k : code c < 91 = ground (arith, b) in
        rw (sanitized, a, b, to_ascii_lower-code c k) (ground (arith, b))
    | inr b ↦ elim (Bool-cases (between 48 57 c)) [
      | inl d ↦ rw (sanitized, a, b, d) (ground (arith, d))
      | inr d ↦ elim (Bool-cases (is_hyphen c || nat_eq (code c) 95)) [
        | inl e ↦ rw (sanitized, a, b, d, e) (ground (arith, e))
        | inr e ↦ rw (sanitized, a, b, d, e) refl
      ]
    ]
  ]
]

-- A segment that may stand in a path: safe characters, and no hyphen at either end.
pub record IsClean (s : String) : Type 0 where
  pub safe : all_safe s ≡ true
  pub start : starts_hyphened s ≡ false
  pub stop : ends_hyphened s ≡ false

sanitize_all-safe : (s : String) → all_safe (sanitize_all s) ≡ true
unfolding sanitize_all
sanitize_all-safe [] = refl
sanitize_all-safe (c ∷ s) = rw (sanitized-IsSafe c, sanitize_all-safe s) refl

left-safe : (s : String) → all_safe s ≡ true → all_safe (trim_hyphens_left s) ≡ true
unfolding trim_hyphens_left
left-safe [] h = refl
left-safe (c ∷ s) h = elim (Bool-cases (is_hyphen c)) [
  | inl e ↦ rw (trim_hyphens_left, e) (left-safe s (and_right (is_safe c) (all_safe s) h))
  | inr e ↦ rw (trim_hyphens_left, e) h
]
  where
    and_right : (a b : Bool) → (a && b) ≡ true → b ≡ true
    and_right true b h = h
    and_right false b h = cc

right-safe : (s : String) → all_safe s ≡ true → all_safe (trim_hyphens_right s) ≡ true
unfolding trim_hyphens_right
right-safe [] h = refl
right-safe (c ∷ s) h =
    let (p, q) = and_both (is_safe c) (all_safe s) h in
    cons_safe c (trim_hyphens_right s) p (right-safe s q)
  where
    and_both : (a b : Bool) → (a && b) ≡ true → (a ≡ true) × (b ≡ true)
    and_both true b h = (refl, h)
    and_both false b h = cc

    cons_safe :
        (c : Char) (s : String)
        → is_safe c ≡ true
        → all_safe s ≡ true
        → all_safe (cons_unhyphened c s) ≡ true
    cons_safe c [] p q = elim (Bool-cases (is_hyphen c)) [
      | inl e ↦ rw e refl
      | inr e ↦ rw e (rw p refl)
    ]
    cons_safe c (d ∷ s) p q = rw (p, q) refl

left-start : (s : String) → starts_hyphened (trim_hyphens_left s) ≡ false
unfolding trim_hyphens_left
left-start [] = refl
left-start (c ∷ s) = elim (Bool-cases (is_hyphen c)) [
  | inl e ↦ rw (trim_hyphens_left, e) (left-start s)
  | inr e ↦ rw (trim_hyphens_left, e) e
]

right-stop : (s : String) → ends_hyphened (trim_hyphens_right s) ≡ false
unfolding trim_hyphens_right
right-stop [] = refl
right-stop (c ∷ s) = cons_stop c (trim_hyphens_right s) (right-stop s)
  where
    cons_stop :
        (c : Char) (s : String)
        → ends_hyphened s ≡ false
        → ends_hyphened (cons_unhyphened c s) ≡ false
    cons_stop c [] q = elim (Bool-cases (is_hyphen c)) [ inl e ↦ rw e refl | inr e ↦ rw e e ]
    cons_stop c (d ∷ s) q = q

left-stop : (s : String) → ends_hyphened s ≡ false → ends_hyphened (trim_hyphens_left s) ≡ false
unfolding trim_hyphens_left
left-stop [] h = refl
left-stop (c ∷ []) h = rw h h
left-stop (c ∷ d ∷ s) h = elim (Bool-cases (is_hyphen c)) [
  | inl e ↦ rw (trim_hyphens_left, e) (left-stop (d ∷ s) h)
  | inr e ↦ rw (trim_hyphens_left, e) h
]

-- Whatever the id of an inbox is, the segment that stands for it in the key of a raw message holds
-- only the letters a to z, digits, hyphens and underscores, and has no hyphen at either end.
pub sanitize_path_segment-IsClean :
    (unicode : Unicode) (value : String) → IsClean (sanitize_path_segment unicode value)
unfolding sanitize_path_segment
sanitize_path_segment-IsClean unicode value =
    let trimmed = trim_space unicode value in
    let right = trim_hyphens_right (sanitize_all trimmed) in
    elim (Bool-cases (trimmed == "")) [
      | inl e ↦ rw e (record { safe = refl; start = refl; stop = refl })
      | inr e ↦ rw e (record {
        safe = left-safe right (right-safe (sanitize_all trimmed) (sanitize_all-safe trimmed));
        start = left-start right;
        stop = left-stop right (right-stop (sanitize_all trimmed));
      })
    ]
