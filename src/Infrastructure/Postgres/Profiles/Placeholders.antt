-- ===== src/Infrastructure/Postgres/Profiles/Placeholders.antt =====
-- The placeholders of the updateBuilder keep their arguments, and a clause runs after those before it.
use courtknights.Common.{
  suc, ◌≡◌, refl, ap, Option, none, some, List, [], ◌∷◌, ◌++◌, length, length-append, get_elem?,
  arith, Option-cases, inl, inr,
}
use courtknights.Infrastructure.Postgres.{ProfileRow}
use courtknights.Infrastructure.Postgres.Profiles.Builder.{Value, Clause}
use courtknights.Infrastructure.Postgres.Profiles.Table.{
  and_then, argument, apply_clause, apply_clauses,
}

pub get_elem?-append :
    {A : Type 0} (xs : List A) (x : A) (ys : List A)
    → get_elem? (xs ++ (x ∷ ys)) (length xs) ≡ some x
get_elem?-append [] x ys = refl
get_elem?-append (y ∷ xs) x ys = get_elem?-append xs x ys

pub append_assoc : {A : Type 0} (xs ys zs : List A) → (xs ++ ys) ++ zs ≡ xs ++ (ys ++ zs)
append_assoc [] ys zs = refl
append_assoc (x ∷ xs) ys zs = ap (λ l. x ∷ l) (append_assoc xs ys zs)

length-snoc : {A : Type 0} (xs : List A) (x : A) → length (xs ++ (x ∷ [])) ≡ suc (length xs)
length-snoc xs x = omega (arith, length-append xs (x ∷ []))

-- A placeholder that `arg` has given still has its argument when more are added.
pub argument-arg :
    (args : List Value) (v : Value) (more : List Value)
    → argument ((args ++ (v ∷ [])) ++ more) (length (args ++ (v ∷ []))) ≡ v
argument-arg args v more =
    rw (length-snoc args v, append_assoc args (v ∷ []) more, argument, get_elem?-append args v more)
      refl

and_then-some : {A : Type 0} (o : Option A) → and_then some o ≡ o
and_then-some none = refl
and_then-some (some a) = refl

pub argument_last :
    (args : List Value) (v : Value) → argument (args ++ (v ∷ [])) (length (args ++ (v ∷ []))) ≡ v
argument_last args v = rw (length-snoc args v, argument, get_elem?-append args v []) refl

pub apply_clauses-append :
    (args : List Value) (old p q : ProfileRow) (cs : List Clause) (c : Clause)
    → apply_clauses args old cs p ≡ some q
    → apply_clauses args old (cs ++ (c ∷ [])) p ≡ apply_clause args old c q
unfolding apply_clauses
apply_clauses-append args old p q [] c h =
    let same : p ≡ q = cc in rw (apply_clauses, same) (and_then-some (apply_clause args old c q))
apply_clauses-append args old p q (d ∷ cs) c h = elim (Option-cases (apply_clause args old d p)) [
  | inl e ↦ absurd (cc (rw (apply_clauses, e) at h))
  | inr (r, e) ↦
      rw (apply_clauses, e) (apply_clauses-append args old r q cs c (rw (apply_clauses, e) at h))
]

-- The second and the third last argument keep their placeholders too.
pub argument-arg_arg :
    (args : List Value) (v w : Value) (more : List Value)
    → argument (((args ++ (v ∷ [])) ++ (w ∷ [])) ++ more) (length (args ++ (v ∷ []))) ≡ v
argument-arg_arg args v w more =
    rw (append_assoc (args ++ (v ∷ [])) (w ∷ []) more) (argument-arg args v (w ∷ more))

pub argument-arg_arg_arg :
    (args : List Value) (v w x : Value) (more : List Value)
    → argument ((((args ++ (v ∷ [])) ++ (w ∷ [])) ++ (x ∷ [])) ++ more) (length (args ++ (v ∷ [])))
      ≡ v
argument-arg_arg_arg args v w x more =
    rw (append_assoc ((args ++ (v ∷ [])) ++ (w ∷ [])) (x ∷ []) more)
      (argument-arg_arg args v w (x ∷ more))
