-- ===== src/Text/Order.antt =====
-- The order of strings is antisymmetric: comparing the other way round gives the opposite answer.
use Prim.Native.Nat.{Ordering, compare as compare_ℕ}
use Prim.Native.Char.{code}
use Prim.Native.String.compare
use Prim.Native.String.{String, [], ◌∷◌, compare, then as lexicographic}
use agent_layer.Prelude.{ℕ, ◌≡◌, ◌∙◌, refl, sym, ap, arith}

abbrev pub flip : Ordering → Ordering
flip Ordering.lt = Ordering.gt
flip Ordering.eq = Ordering.eq
flip Ordering.gt = Ordering.lt

compare_ℕ-flip : (m n : ℕ) → compare_ℕ n m ≡ flip (compare_ℕ m n)
compare_ℕ-flip m n = ground arith

lexicographic-flip : (a b : Ordering) → flip (lexicographic a b) ≡ lexicographic (flip a) (flip b)
lexicographic-flip Ordering.lt b = refl
lexicographic-flip Ordering.eq b = refl
lexicographic-flip Ordering.gt b = refl

pub compare-flip : (s t : String) → compare t s ≡ flip (compare s t)
compare-flip [] [] = refl
compare-flip [] (d ∷ t) = compare.cons-nil d t ∙ sym (ap flip (compare.nil-cons d t))
compare-flip (c ∷ s) [] = compare.nil-cons c s ∙ sym (ap flip (compare.cons-nil c s))
compare-flip (c ∷ s) (d ∷ t) =
    compare.cons-cons d c t s
    ∙ rw (compare_ℕ-flip (code c) (code d), compare-flip s t) (sym (lexicographic-flip _ _))
    ∙ sym (ap flip (compare.cons-cons c d s t))
