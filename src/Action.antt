-- ===== src/Action.antt =====
-- Go functions that return a value or an error, and may change shared state on the way. What was
-- written before an error stays written, so the state comes back beside the error too.
use courtknights.Common.{String, ◌≡◌, refl, ap, ◌⊎◌, inl, inr}
use courtknights.Errors.{Error, wrap}

pub data Result {ℓ} (A : Type ℓ) : Type ℓ where
  ok : A → Result A
  err : Error → Result A

abbrev pub Action : Type 0 → Type 0 → Type 0
Action S A = S → Result A × S

module _ {S A : Type 0} where
  abbrev pub pure : A → Action S A
  pure a s = (ok a, s)

  abbrev pub fail : Error → Action S A
  fail e s = (err e, s)

  abbrev pub lift : Result A → Action S A
  lift r s = (r, s)

  -- `if err != nil { return fmt.Errorf("prefix: %w", err) }`
  abbrev pub rewrap : (Error → Error) → Result A × S → Result A × S
  rewrap f (ok a, s) = (ok a, s)
  rewrap f (err e, s) = (err (f e), s)

  abbrev pub within : String → Action S A → Action S A
  within prefix m s = rewrap (wrap prefix) (m s)

module _ {S A B : Type 0} where
  abbrev pub continue : (A → Action S B) → Result A × S → Result B × S
  continue f (ok a, s) = f a s
  continue f (err e, s) = (err e, s)

  infixl 5 ◌>>=◌ ◌>>◌
  abbrev pub ◌>>=◌ : Action S A → (A → Action S B) → Action S B
  ◌>>=◌ m f s = continue f (m s)

  abbrev pub ◌>>◌ : Action S A → Action S B → Action S B
  m >> n = m >>= λ _. n

  -- `if err != nil { return handle(err) }`, where the handler may go on.
  abbrev pub handle : (Error → Action S B) → (A → Action S B) → Result A × S → Result B × S
  handle h f (ok a, s) = f a s
  handle h f (err e, s) = h e s

-- A result with the state beside it is one of the two.
pub Result-cases :
    {A S : Type 0} (r : Result A × S)
    → ((a : A) × (s : S) × (r ≡ (ok a, s))) ⊎ ((e : Error) × (s : S) × (r ≡ (err e, s)))
Result-cases (ok a, s) = inl (a, s, refl)
Result-cases (err e, s) = inr (e, s, refl)

pub Outcome-cases :
    {A : Type 0} (r : Result A) → ((a : A) × (r ≡ ok a)) ⊎ ((e : Error) × (r ≡ err e))
Outcome-cases (ok a) = inl (a, refl)
Outcome-cases (err e) = inr (e, refl)

-- An action that goes on after another succeeds where both do.
pub bind_ok :
    {S A B : Type 0} (m : Action S A) (f : A → Action S B) (s s' : S) (b : B)
    → (m >>= f) s ≡ (ok b, s')
    → (a : A) × (t : S) × (m s ≡ (ok a, t)) × (f a t ≡ (ok b, s'))
bind_ok m f s s' b h = elim (Result-cases (m s)) [
  | inl (a, t, e) ↦ (a, t, e, rw e at h)
  | inr (e, t, q) ↦ absurd (cc (rw q at h))
]

pub lift_ok :
    {S A : Type 0} (r : Result A) (s s' : S) (a : A) → lift r s ≡ (ok a, s') → (r ≡ ok a) × (s ≡ s')
lift_ok r s s' a h = (ap (λ p. p.0) h, ap (λ p. p.1) h)

pub rewrap_ok :
    {S A : Type 0} (f : Error → Error) (r : Result A × S) (a : A) (s : S)
    → rewrap f r ≡ (ok a, s)
    → r ≡ (ok a, s)
rewrap_ok f (ok a, t) b s h = h
rewrap_ok f (err e, t) b s h = absurd (cc h)
