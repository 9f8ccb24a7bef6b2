-- ===== src/Prelude/Exec.antt =====
-- Go functions that call stateful collaborators and may return an error. What was written before
-- an error stays written, so the state comes back beside the error too.
use mathlib.Core.Path.{◌≡◌, refl, ap, ◌∙◌}
use mathlib.Core.Logic.{◌⊎◌, inl, inr}
use Prim.Native.String.{String}

-- An `error` value: the sentinels that callers tell apart, and every other error by its text.
pub data Error : Type 0 where
  not_found : String → Error
  recipient_suppressed : Error
  provider_message_not_found : Error
  replay_request_unavailable : Error
  failure : String → Error

pub data Result {ℓ} (A : Type ℓ) : Type ℓ where
  ok : A → Result A
  err : Error → Result A

pub Result-cases :
    {A : Type 0} (r : Result A) → ((x : Error) × (r ≡ err x)) ⊎ ((a : A) × (r ≡ ok a))
Result-cases (err x) = inl (x, refl)
Result-cases (ok a) = inr (a, refl)

abbrev pub Exec {ℓ} : Type ℓ → Type ℓ → Type ℓ
Exec S A = S → Result A × S

module _ {ℓ} {S A : Type ℓ} where
  abbrev pub pure : A → Exec S A
  pure a s = (ok a, s)

  abbrev pub fail : Error → Exec S A
  fail e s = (err e, s)

module _ {ℓ} {S A B : Type ℓ} where
  abbrev pub continue : Result A → (A → Exec S B) → Exec S B
  continue (ok a) f s = f a s
  continue (err e) f s = (err e, s)

  infixl 10 ◌>>=◌ ◌>>◌
  abbrev pub ◌>>=◌ : Exec S A → (A → Exec S B) → Exec S B
  ◌>>=◌ m f s = let (r, s') = m s in continue r f s'

  abbrev pub ◌>>◌ : Exec S A → Exec S B → Exec S B
  m >> n = m >>= λ _. n

-- Inversion of a chain that returned, and of one that failed.
module _ {ℓ} {S A B : Type ℓ} where
  continue-ok :
      (r : Result A) (f : A → Exec S B) (s : S) (b : B) (s'' : S)
      → continue r f s ≡ (ok b, s'')
      → (a : A) × (r ≡ ok a) × (f a s ≡ (ok b, s''))
  continue-ok (ok a) f s b s'' e = (a, refl, e)
  continue-ok (err x) f s b s'' e = cc

  pub bind-ok :
      (m : Exec S A) (f : A → Exec S B) (s : S) (b : B) (s'' : S)
      → (m >>= f) s ≡ (ok b, s'')
      → (a : A) × (s' : S) × (m s ≡ (ok a, s')) × (f a s' ≡ (ok b, s''))
  bind-ok m f s b s'' e =
      let (a, p, q) = continue-ok (m s).0 f (m s).1 b s'' e in
      (a, (m s).1, (λ i. (p i, (m s).1)), q)

  pub bind-result :
      (m : Exec S A) (f : A → Exec S B) (s : S) (b : B)
      → ((m >>= f) s).0 ≡ ok b
      → (a : A) × ((m s).0 ≡ ok a) × ((f a (m s).1).0 ≡ ok b)
  bind-result m f s b e = continue-result (m s).0 f (m s).1 b e
    where
      continue-result :
          (r : Result A) (f : A → Exec S B) (s : S) (b : B)
          → (continue r f s).0 ≡ ok b
          → (a : A) × (r ≡ ok a) × ((f a s).0 ≡ ok b)
      continue-result (ok a) f s b e = (a, refl, e)
      continue-result (err x) f s b e = cc

  -- The first step of a chain, where it is known to return.
  pub bind-run :
      (m : Exec S A) (f : A → Exec S B) (s : S) {a : A} {s' : S} {out : Result B × S}
      → m s ≡ (ok a, s')
      → f a s' ≡ out
      → (m >>= f) s ≡ out
  bind-run m f s e h = ap (λ p. continue p.0 f p.1) e ∙ h

  pub bind-fails :
      (m : Exec S A) (f : A → Exec S B) (s : S) {x : Error} {s' : S}
      → m s ≡ (err x, s')
      → (m >>= f) s ≡ (err x, s')
  bind-fails m f s e = ap (λ p. continue p.0 f p.1) e
