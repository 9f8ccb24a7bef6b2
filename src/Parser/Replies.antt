-- ===== src/Parser/Replies.antt =====
-- internal/parser/parser.go with internal/outbound/assembler.go: the subject of a reply normalizes
-- to what the subject it answers normalizes to.
use Prim.Native.String.{[], ◌∷◌}
use mathlib.Core.Path.{subst}
use text.Mathlib.TextLemmas.{cons-append, nil-append}
use agent_layer.Prelude.{
  ℕ, suc, String, str_append, false, some, ◌==◌, ◌≡◌, ◌≢◌, refl, ap, ◌∙◌, arith, Bool-cases, inl,
  inr, eq_iff,
}
use agent_layer.Text.{
  Unicode, to_lower, lower_char, trim_left, trim_right, cons_trimmed, trim_space, has_prefix, drop,
  size, space_char,
}
use agent_layer.Outbound.Assembler.{reply_subject}
use agent_layer.Parser.Subject.{
  stripped, normalize_from, normalize_subject, normalize_from-fuel, size-trim_space,
}

re_cons : (s : String) → str_append "Re: " s ≡ "R" ∷ "e" ∷ ":" ∷ " " ∷ s
re_cons s =
    cons-append "R" "e: " s
    ∙ ap (λ t. "R" ∷ t)
        (cons-append "e" ": " s
          ∙ ap (λ t. "e" ∷ t)
              (cons-append ":" " " s
                ∙ ap (λ t. ":" ∷ t) (cons-append " " "" s ∙ ap (λ t. " " ∷ t) (nil-append s))))

module _ (unicode : Unicode) where
  -- The trimmed form of an answer's subject, and what its first round leaves.
  trim_re :
      (s r : String)
      → r ≢ ""
      → trim_right unicode s ≡ r
      → trim_space unicode ("R" ∷ "e" ∷ ":" ∷ " " ∷ s) ≡ "R" ∷ "e" ∷ ":" ∷ " " ∷ r
  unfolding trim_space trim_right trim_left space_char
  trim_re s [] h e = absurd (h refl)
  trim_re s (c ∷ r) h e = rw (trim_right, e) refl

  strip_re :
      (r : String)
      → stripped unicode ("R" ∷ "e" ∷ ":" ∷ " " ∷ r) ≡ some (trim_space unicode (" " ∷ r))
  unfolding stripped to_lower lower_char has_prefix drop
  strip_re r = refl

  trim_blank :
      (s r : String)
      → r ≢ ""
      → trim_right unicode s ≡ r
      → trim_right unicode r ≡ r
      → trim_space unicode (" " ∷ r) ≡ trim_space unicode s
  unfolding trim_space trim_right trim_left space_char
  trim_blank s [] h e k = absurd (h refl)
  trim_blank s (c ∷ r) h e k = rw (e) (rw k refl)

  trim_right-cons_trimmed :
      (c : _) (r : String)
      → trim_right unicode r ≡ r
      → trim_right unicode (cons_trimmed unicode c r) ≡ cons_trimmed unicode c r
  unfolding trim_right
  trim_right-cons_trimmed c [] e = elim (Bool-cases (space_char unicode c)) [
    | inl h ↦ rw h e
    | inr h ↦ rw h (rw h refl)
  ]
  trim_right-cons_trimmed c (d ∷ r) e = rw (trim_right, e) refl

  trim_right-trim_right :
      (s : String) → trim_right unicode (trim_right unicode s) ≡ trim_right unicode s
  unfolding trim_right
  trim_right-trim_right [] = refl
  trim_right-trim_right (c ∷ s) =
      trim_right-cons_trimmed c (trim_right unicode s) (trim_right-trim_right s)

  round_once :
      (n : ℕ) (s t : String)
      → stripped unicode s ≡ some t
      → normalize_from unicode (suc n) s ≡ normalize_from unicode n t
  unfolding normalize_from
  round_once n s t e = rw (normalize_from, e) refl

  normalize_re :
      (s : String)
      → trim_right unicode s ≢ ""
      → normalize_subject unicode (str_append "Re: " s) ≡ normalize_subject unicode s
  unfolding normalize_subject size
  normalize_re s h =
      let r = trim_right unicode s in
      rw (re_cons s, trim_re s r h refl)
        (round_once (suc (suc (suc (suc (size s))))) _ _ (strip_re r)
          ∙ rw (trim_blank s r h refl (trim_right-trim_right s)) (
              normalize_from-fuel unicode (suc (suc (suc (suc (size s))))) (suc (size s))
                (trim_space unicode s) (omega (arith, size-trim_space unicode s))
                (omega (arith, size-trim_space unicode s))))

  normalize_blank :
      (s : String)
      → trim_space unicode s ≡ ""
      → normalize_subject unicode "Re:" ≡ normalize_subject unicode s
  unfolding normalize_subject normalize_from stripped to_lower lower_char has_prefix drop trim_space
      trim_left trim_right space_char size
  normalize_blank s e = rw e refl

  blank-trim_right : (s : String) → (trim_space unicode s == "") ≡ false → trim_right unicode s ≢ ""
  unfolding trim_space trim_left
  blank-trim_right s e p =
      let q : ("" == "") ≡ false = subst (λ r. (trim_left unicode r == "") ≡ false) p e in cc

  -- The subject that a reply is sent with normalizes to what the subject it answers normalizes to,
  -- whether the code adds a prefix, keeps the one that is there, or finds a blank subject.
  pub normalize_subject-reply_subject :
      (s : String)
      → normalize_subject unicode (reply_subject unicode s) ≡ normalize_subject unicode s
  unfolding reply_subject
  normalize_subject-reply_subject s = elim (Bool-cases (has_prefix (to_lower unicode s) "re:")) [
    | inl h ↦ rw h refl
    | inr h ↦ rw h (elim (Bool-cases (trim_space unicode s == "")) [
      | inl e ↦ rw e (normalize_blank s ((eq_iff (trim_space unicode s) "").0 e))
      | inr e ↦ rw e (normalize_re s (blank-trim_right s e))
    ])
  ]
