-- ===== src/Api/Routes.antt =====
-- internal/api: splitting a path, against `strings.Split`, and the ids in the paths of the routes.
use Prim.Native.Char.{Char}
use Prim.Native.String.{[] as nil, ◌∷◌ as cons}
use text.Mathlib.TextLemmas.{append-nil, append_assoc, cons-append, nil-append, cons≢nil}
use mathlib.Core.List.{append-nil as list_append-nil, append_assoc as list_append_assoc}
use agent_layer.Prelude.{
  ℕ, zero, suc, ◌+◌, ◌-◌, String, str_append, true, false, ◌==◌, List, [], ◌∷◌, ◌++◌, ltb, ◌≡◌,
  refl, sym, ap, ◌∙◌, arith, Bool-cases, inl, inr, eq_iff, str_ne,
}
use agent_layer.Text.{drop, size}
use agent_layer.Text.Fields.{nonempty, cons_first}
use agent_layer.Api.Paths.{
  keep, slice, is_slash, append_segment, segments_from, filter_empty_segments, split_path,
  split_slashes,
}

-- What a text in front of the first part makes of the parts.
abbrev prepend : String → List String → List String
prepend text [] = text ∷ []
prepend text (part ∷ parts) = str_append text part ∷ parts

drop-nil : (n : ℕ) → drop n nil ≡ nil
unfolding drop
drop-nil zero = refl
drop-nil (suc n) = refl

drop-add : (a b : ℕ) (s : String) → drop (a + b) s ≡ drop b (drop a s)
unfolding drop
drop-add zero b s = ap (λ n. drop n s) (omega arith)
drop-add (suc a) b nil = drop-nil (suc a + b) ∙ sym (drop-nil b)
drop-add (suc a) b (cons c s) =
    let e : suc a + b ≡ suc (a + b) = omega arith in ap (λ n. drop n (cons c s)) e ∙ drop-add a b s

drop-append : (s t : String) → drop (size s) (str_append s t) ≡ t
unfolding drop size
drop-append nil t = nil-append t
drop-append (cons c s) t = rw (cons-append c s t) (drop-append s t)

keep-append : (s t : String) → keep (size s) (str_append s t) ≡ s
unfolding keep size
keep-append nil t = refl
keep-append (cons c s) t = rw (cons-append c s t) (ap (cons c) (keep-append s t))

size-snoc : (s : String) (c : Char) → size (str_append s (cons c nil)) ≡ suc (size s)
unfolding size
size-snoc nil c = rw (nil-append (cons c nil)) refl
size-snoc (cons d s) c = rw (cons-append d s (cons c nil)) (ap suc (size-snoc s c))

-- The slice from `start` on is the text that stands there.
slice-append :
    (path text rest : String) (start i : ℕ)
    → drop start path ≡ str_append text rest
    → i ≡ start + size text
    → slice path start i ≡ text
slice-append path text rest start i e h =
    let k : i - start ≡ size text = omega arith in rw (e, k) (keep-append text rest)

drop-past :
    (path text rest : String) (start i : ℕ) (c : Char)
    → drop start path ≡ str_append text (cons c rest)
    → i ≡ start + size text
    → drop (suc i) path ≡ rest
unfolding drop
drop-past path text rest start i c e h =
    let k : suc i ≡ start + (size text + 1) = omega arith in
    rw
      (
        k,
        drop-add start (size text + 1) path,
        e,
        drop-add (size text) 1 (str_append text (cons c rest)),
        drop-append text (cons c rest),
      )
      refl

append_segment-nonempty :
    (path text rest : String) (start i : ℕ) (raw : List String)
    → drop start path ≡ str_append text rest
    → i ≡ start + size text
    → append_segment path start i raw ≡ raw ++ nonempty (text ∷ [])
unfolding size
append_segment-nonempty path nil rest start i raw e h =
    let k : ltb start i ≡ false = ground arith in rw k (sym (list_append-nil raw))
append_segment-nonempty path (cons c text) rest start i raw e h =
    let k : ltb start i ≡ true = ground arith in
    rw (k, slice-append path (cons c text) rest start i e h, str_ne (cons c text) "" cons≢nil) refl

nonempty-cons :
    (part : String) (parts : List String)
    → nonempty (part ∷ parts) ≡ nonempty (part ∷ []) ++ nonempty parts
nonempty-cons part parts = elim (Bool-cases (part == "")) [ inl e ↦ rw e refl | inr e ↦ rw e refl ]

nonempty-prepend : (parts : List String) → nonempty (prepend nil parts) ≡ nonempty parts
nonempty-prepend [] = refl
nonempty-prepend (part ∷ parts) = rw (nil-append part) refl

snoc-append :
    (text : String) (c : Char) (rest : String)
    → str_append (str_append text (cons c nil)) rest ≡ str_append text (cons c rest)
snoc-append text c rest =
    append_assoc text (cons c nil) rest
    ∙ ap (str_append text) (cons-append c nil rest ∙ ap (cons c) (nil-append rest))

prepend-cons_first :
    (text : String) (c : Char) (parts : List String)
    → prepend text (cons_first c parts) ≡ prepend (str_append text (cons c nil)) parts
prepend-cons_first text c [] = refl
prepend-cons_first text c (part ∷ parts) = ap (λ p. p ∷ parts) (sym (snoc-append text c part))

-- The loop, in a state where the open segment is `text`.
segments_from-split :
    (path text rest : String) (i start : ℕ) (raw : List String)
    → drop start path ≡ str_append text rest
    → i ≡ start + size text
    → segments_from path rest i start raw ≡ raw ++ nonempty (prepend text (split_slashes rest))
unfolding segments_from split_slashes size
segments_from-split path text nil i start raw e h =
    rw (append-nil text) (append_segment-nonempty path text nil start i raw e h)
segments_from-split path text (cons c rest) i start raw e h = elim (Bool-cases (is_slash c)) [
  | inl slash ↦
      rw (segments_from, slash)
        (segments_from-split path nil rest (suc i) (suc i) (append_segment path start i raw)
            (drop-past path text rest start i c e h ∙ sym (nil-append rest)) (omega arith)
          ∙ rw
              (
                append_segment-nonempty path text (cons c rest) start i raw e h,
                nonempty-prepend (split_slashes rest),
                append-nil text,
                nonempty-cons text (split_slashes rest),
              )
              (list_append_assoc raw (nonempty (text ∷ [])) (nonempty (split_slashes rest))))
  | inr inside ↦
      rw (segments_from, inside)
        (segments_from-split path (str_append text (cons c nil)) rest (suc i) start raw
            (e ∙ sym (snoc-append text c rest))
            (let k : size (str_append text (cons c nil)) ≡ suc (size text) = size-snoc text c in
              omega arith)
          ∙ rw (prepend-cons_first text c (split_slashes rest)) refl)
]

-- Taking the segments of a path by the loop over its bytes gives the parts of `strings.Split` at the
-- slashes that are not empty.
pub split_path-split_slashes : (path : String) → split_path path ≡ nonempty (split_slashes path)
unfolding split_path filter_empty_segments split_slashes drop size
split_path-split_slashes path = elim (Bool-cases (path == "")) [
  | inl e ↦ rw (e, (eq_iff path "").0 e) refl
  | inr e ↦ rw e (
      segments_from-split path nil path 0 0 [] (sym (nil-append path)) (omega arith)
      ∙ nonempty-prepend (split_slashes path))
]
