-- ===== src/Prelude/Dict.antt =====
-- Go's `map` with string keys, as a list of entries. `put` and `get` are known to the other modules
-- by their laws; what `range` visits are the values, each key once.
use Prim.Native.String.{String}
use mathlib.Core.Path.{◌≡◌, refl}
use mathlib.Core.Option.{Option, none, some}
use mathlib.Core.List.{List, [], ◌∷◌}
use native.Mathlib.Omega.{arith}
use text.Mathlib.Text.{◌==◌}
use text.Mathlib.TextEquality.{eq_iff}
use text.Mathlib.TextPositions.{eq_refl}
use agent_layer.Prelude.Tests.{if◌then◌else◌}
use agent_layer.Prelude.Lists.{All}

abbrev pub Dict {ℓ} : Type ℓ → Type ℓ
Dict V = List (String × V)

module _ {ℓ} {V : Type ℓ} where
  -- v, ok := d[k]
  unfoldable pub get : Dict V → String → Option V
  get [] k = none
  get ((j, v) ∷ d) k = if j == k then some v else get d k

  -- d[k] = v
  unfoldable pub put : Dict V → String → V → Dict V
  put [] k v = (k, v) ∷ []
  put ((j, w) ∷ d) k v = if j == k then (k, v) ∷ d else (j, w) ∷ put d k v

  -- The values that `for _, v := range d` visits.
  unfoldable pub values : Dict V → List V
  values [] = []
  values ((j, v) ∷ d) = v ∷ values d

  pub get-put :
      (d : Dict V) (k : String) (v : V) (j : String)
      → get (put d k v) j ≡ (if k == j then some v else get d j)
  unfolding get put
  get-put [] k v j = refl
  get-put ((i, w) ∷ d) k v j = ground (arith, eq_iff i k, eq_iff i j, eq_iff k j, get-put d k v j)

  -- Every key that the map holds satisfies `P` together with its value.
  pub All-put {κ} :
      (P : String × V → Type κ) (d : Dict V) (k : String) (v : V)
      → All P d
      → P (k, v)
      → All P (put d k v)
  unfolding put
  All-put P [] k v h p = (p, tt)
  All-put P ((j, w) ∷ d) k v (q, h) p = ground (arith, All-put P d k v h p)

  pub All-get {κ} :
      (P : String × V → Type κ) (d : Dict V) (k : String) (v : V)
      → All P d
      → get d k ≡ some v
      → P (k, v)
  unfolding get
  All-get P [] k v h e = cc
  All-get P ((j, w) ∷ d) k v (q, h) e = ground (arith, All-get P d k v h, eq_iff j k)

  pub get-put_self : (d : Dict V) (k : String) (v : V) → get (put d k v) k ≡ some v
  get-put_self d k v = simp (get-put, eq_refl)
