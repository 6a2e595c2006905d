-- ===== src/Infrastructure/Postgres/Profiles/Sorting.antt =====
-- ORDER BY of List in api/internal/infrastructure/postgres/profile_repository.go: what a sort by a
-- test is, and that one test leaves one order.
use mathlib.Core.Bool.{Bool-set}
use mathlib.Core.Logic.Or
use mathlib.Core.List.{
  Mem, Perm, mem-cons_of_mem, mem-cons_self, eq-or-mem_of_mem-cons, not-mem-nil,
}
use mathlib.Core.List.Perm
use courtknights.Common.{
  ◌≡◌, ◌⊎◌, inl, inr, refl, sym, subst, Bool, true, false, List, [], ◌∷◌, Bool-cases, String,
  eq_iff, arith, if◌then◌else◌,
}
use courtknights.Infrastructure.Postgres.{ProfileRow}
use courtknights.Infrastructure.Postgres.Profiles.{precedes}

-- A test that says which of two comes first: never both, and what stands between two is told apart
-- from one of them.
pub record IsOrder {ℓ} {A : Type ℓ} (less : A → A → Bool) : Type ℓ where
  pub asym : (x y : A) → less x y ≡ true → less y x ≡ false
  pub cotrans : (x y z : A) → less x z ≡ true → (less x y ≡ true) ⊎ (less y z ≡ true)

-- No item comes before an earlier one.
abbrev pub Sorted {ℓ} : {A : Type ℓ} → (A → A → Bool) → List A → Type ℓ
Sorted less [] = Unit
Sorted less (x ∷ xs) = ((y : _) → Mem y xs → less y x ≡ false) × Sorted less xs

module _ {ℓ} {A : Type ℓ} (less : A → A → Bool) where
  irreflexive : IsOrder less → (x : A) → less x x ≡ false
  irreflexive o x = elim (Bool-cases (less x x)) [ inl e ↦ o.asym x x e | inr e ↦ e ]

  module _ (o : IsOrder less) where
    first_least :
        (x y : A) (xs : List A)
        → ((z : A) → Mem z xs → less z x ≡ false)
        → Mem y (x ∷ xs)
        → less y x ≡ false
    first_least x y xs least m =
        Or.elim (Bool-set _ _) (eq-or-mem_of_mem-cons m) (λ e. rw e (irreflexive o x)) (least y)

    -- Two sorted lists of the same items are equal, where the test tells any two of them apart.
    pub Sorted-unique :
        (xs ys : List A)
        → ((x y : A) → Mem x xs → Mem y xs → less x y ≡ false → less y x ≡ false → x ≡ y)
        → Sorted less xs
        → Sorted less ys
        → Perm xs ys
        → xs ≡ ys
    Sorted-unique [] [] tells s t p = refl
    Sorted-unique [] (y ∷ ys) tells s t p = absurd (not-mem-nil ((Perm.mem_iff p).1 mem-cons_self))
    Sorted-unique (x ∷ xs) [] tells s t p = absurd (not-mem-nil ((Perm.mem_iff p).0 mem-cons_self))
    Sorted-unique (x ∷ xs) (y ∷ ys) tells s t p =
        let there = (Perm.mem_iff p).1 mem-cons_self in
        let e : x ≡ y =
          tells x y mem-cons_self there (first_least y x ys t.0 ((Perm.mem_iff p).0 mem-cons_self))
            (first_least x y xs s.0 there) in
        let rest : Perm xs ys = Perm.cons_inv (subst (λ z. Perm (x ∷ xs) (z ∷ ys)) (sym e) p) in
        let same : xs ≡ ys =
          Sorted-unique xs ys (λ a b m n. tells a b (mem-cons_of_mem x m) (mem-cons_of_mem x n)) s.1
            t.1 rest in
        cc (e, same)

  insert : A → List A → List A
  insert p [] = p ∷ []
  insert p (q ∷ qs) = let rest = insert p qs in if less q p then q ∷ rest else p ∷ q ∷ qs

  -- A sort by insertion.
  unfoldable pub insertion_sort : List A → List A
  unfolding insert
  insertion_sort [] = []
  insertion_sort (p ∷ ps) = insert p (insertion_sort ps)

  insert-Perm : (p : A) (qs : List A) → Perm (p ∷ qs) (insert p qs)
  unfolding insert
  insert-Perm p [] = Perm.refl (p ∷ [])
  insert-Perm p (q ∷ qs) = elim (Bool-cases (less q p)) [
    | inl e ↦ rw e (Perm.trans (Perm.swap q p qs) (Perm.cons q (insert-Perm p qs)))
    | inr e ↦ rw e (Perm.refl (p ∷ q ∷ qs))
  ]

  pub insertion_sort-Perm : (ps : List A) → Perm ps (insertion_sort ps)
  unfolding insertion_sort
  insertion_sort-Perm [] = Perm.refl []
  insertion_sort-Perm (p ∷ ps) =
      Perm.trans (Perm.cons p (insertion_sort-Perm ps)) (insert-Perm p (insertion_sort ps))

  insert-Sorted :
      (o : IsOrder less) (p : A) (qs : List A) → Sorted less qs → Sorted less (insert p qs)
  unfolding insert
  insert-Sorted o p [] s = (λ y m. absurd (not-mem-nil m), tt)
  insert-Sorted o p (q ∷ qs) s = elim (Bool-cases (less q p)) [
    | inl e ↦ rw e (
      λ y m.
          Or.elim (Bool-set _ _) (eq-or-mem_of_mem-cons ((Perm.mem_iff (insert-Perm p qs)).1 m))
            (λ same. rw same (o.asym q p e)) (s.0 y),
      insert-Sorted o p qs s.1,
    )
    | inr e ↦ rw e (
      λ y m.
          Or.elim (Bool-set _ _) (eq-or-mem_of_mem-cons m) (λ same. rw same e)
            (λ later. elim (Bool-cases (less y p)) [
              | inl lower ↦ elim (o.cotrans y q p lower) [
                | inl a ↦ absurd (cc (a, s.0 y later))
                | inr a ↦ absurd (cc (a, e))
              ]
              | inr n ↦ n
            ]),
      s,
    )
  ]

  pub insertion_sort-Sorted : IsOrder less → (ps : List A) → Sorted less (insertion_sort ps)
  unfolding insertion_sort
  insertion_sort-Sorted o [] = tt
  insertion_sort-Sorted o (p ∷ ps) =
      insert-Sorted o p (insertion_sort ps) (insertion_sort-Sorted o ps)

-- A collation tells any two texts apart.
pub record IsCollation (before : String → String → Bool) : Type 0 where
  pub order : IsOrder before
  pub total : (x y : String) → before x y ≡ false → before y x ≡ false → x ≡ y

module _ (before : String → String → Bool) (c : IsCollation before) where
  -- Names that stand on either side of a third are told apart or the three are one.
  equal_names : (n m k : String) → n ≡ k → before n m ≡ false → before m k ≡ false → n ≡ m
  equal_names n m k e h l = c.total n m h (rw e l)

  not_before : (n m k : String) → before n m ≡ false → before m k ≡ false → before n k ≡ false
  not_before n m k h l = elim (Bool-cases (before n k)) [
    | inl e ↦ elim (c.order.cotrans n m k e) [
      | inl a ↦ absurd (cc (a, h))
      | inr a ↦ absurd (cc (a, l))
    ]
    | inr e ↦ e
  ]

  not_precedes :
      (p q r : ProfileRow)
      → precedes before p q ≡ false
      → precedes before q r ≡ false
      → precedes before p r ≡ false
  unfolding precedes
  not_precedes p q r h k = ground (
    arith,
    h,
    k,
    not_before p.display_name q.display_name r.display_name,
    equal_names p.display_name q.display_name r.display_name,
    eq_iff p.display_name q.display_name,
    eq_iff q.display_name r.display_name,
    eq_iff p.display_name r.display_name,
  )

  pub precedes-IsOrder : IsOrder (precedes before)
  unfolding precedes
  precedes-IsOrder = record {
    asym = λ p q h. ground (
      arith,
      h,
      c.order.asym p.display_name q.display_name,
      c.order.asym q.display_name p.display_name,
      irreflexive before c.order p.display_name,
      eq_iff p.display_name q.display_name,
      eq_iff q.display_name p.display_name,
    );
    cotrans = λ p q r h. elim (Bool-cases (precedes before p q)) [
      | inl e ↦ inl e
      | inr e ↦ elim (Bool-cases (precedes before q r)) [
        | inl f ↦ inr f
        | inr f ↦ absurd (cc (h, not_precedes p q r e f))
      ]
    ];
  }

  -- Rows that the order does not tell apart have the same id.
  pub precedes_total :
      (p q : ProfileRow)
      → precedes before p q ≡ false
      → precedes before q p ≡ false
      → p.user_id ≡ q.user_id
  unfolding precedes
  precedes_total p q h k = ground (
    arith,
    h,
    k,
    c.total p.display_name q.display_name,
    eq_iff p.display_name q.display_name,
    eq_iff q.display_name p.display_name,
  )
