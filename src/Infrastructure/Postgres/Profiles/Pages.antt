-- ===== src/Infrastructure/Postgres/Profiles/Pages.antt =====
-- The pages of List, read one after the other.
use mathlib.Core.Logic.{∥∥₁_elim}
use mathlib.Core.List.{Mem, Perm, Permᴰ}
use mathlib.Core.List.Permᴰ.{nil, cons, swap, trans}
use mathlib.Core.List.Perm
use native.Mathlib.Nat.{suc-mul, ℕ_set}
use courtknights.Common.{
  ℕ, zero, suc, ◌+◌, ◌-◌, ◌*◌, ◌%◌, ◌^◌, ◌≤◌, ◌<◌, ◌≡◌, refl, ap, ◌∙◌, Bool, List, [], ◌∷◌, ◌++◌,
  map, take, drop, length, length-map, arith, leb, eqb, false,
}
use courtknights.Action.{Action, ok, pure, ◌>>=◌}
use courtknights.Domain.Profile.{ListParams, ProfileListItem}
use courtknights.Infrastructure.Postgres.{Database, ProfileRow}
use courtknights.Infrastructure.Postgres.Profiles.Sorting.{
  IsOrder, IsCollation, Sorted, Sorted-unique, precedes-IsOrder, precedes_total,
}
use courtknights.Infrastructure.Postgres.Profiles.{
  Ordering, precedes, scan_list_item, joined, ordered, offset, list,
}

module _ {A : Type 0} where
  take-append : (a b : ℕ) (xs : List A) → take a xs ++ take b (drop a xs) ≡ take (a + b) xs
  take-append zero b xs = let e : 0 + b ≡ b = omega arith in rw e refl
  take-append (suc a) zero [] = let e : suc a + 0 ≡ suc a = omega arith in rw e refl
  take-append (suc a) (suc b) [] =
      let e : suc a + suc b ≡ suc (suc (a + b)) = omega arith in rw e refl
  take-append (suc a) b (x ∷ xs) =
      let e : suc a + b ≡ suc (a + b) = omega arith in rw e (ap (λ l. x ∷ l) (take-append a b xs))

  take_all : (n : ℕ) (xs : List A) → length xs ≤ n → take n xs ≡ xs
  take_all zero [] h = refl
  take_all (suc n) [] h = refl
  take_all zero (x ∷ xs) h = absurd (omega arith)
  take_all (suc n) (x ∷ xs) h = ap (λ l. x ∷ l) (take_all n xs (omega arith))

  map-take : {B : Type 0} (f : A → B) (n : ℕ) (xs : List A) → map f (take n xs) ≡ take n (map f xs)
  map-take f zero xs = refl
  map-take f (suc n) [] = refl
  map-take f (suc n) (x ∷ xs) = ap (λ l. f x ∷ l) (map-take f n xs)

  map-drop : {B : Type 0} (f : A → B) (n : ℕ) (xs : List A) → map f (drop n xs) ≡ drop n (map f xs)
  map-drop f zero xs = refl
  map-drop f (suc n) [] = refl
  map-drop f (suc n) (x ∷ xs) = map-drop f n xs

abbrev pub page_of : ℕ → ℕ → ListParams
page_of size n = record { page = n; page_size = size; fields = [] }

offset_small : (n size : ℕ) → n * size < 2 ^ 63 → offset (page_of size (suc n)) ≡ n * size
unfolding offset
offset_small n size h =
    let e : suc n - 1 ≡ n = omega arith in
    let m : n * size % 2 ^ 64 ≡ n * size = omega arith in
    let positive : eqb (suc n) 0 ≡ false = ground arith in rw (positive, e, m) refl

-- Pages 1 to n, with an error of any of them.
abbrev pub read_pages : Ordering → ℕ → ℕ → Action Database (List ProfileListItem)
read_pages order size zero = pure []
read_pages order size (suc n) = do
  done ← read_pages order size n
  answer ← list order (page_of size (suc n))
  pure (done ++ answer.0)

length-Permᴰ : {xs ys : List ProfileRow} → Permᴰ xs ys → length xs ≡ length ys
length-Permᴰ nil = refl
length-Permᴰ (cons e p) = ap suc (length-Permᴰ p)
length-Permᴰ (swap e f) = refl
length-Permᴰ (trans p q) = length-Permᴰ p ∙ length-Permᴰ q

length-Perm : {xs ys : List ProfileRow} → Perm xs ys → length xs ≡ length ys
length-Perm p = ∥∥₁_elim p (ℕ_set _ _) length-Permᴰ

module _ (order : Ordering) (size : ℕ) (db : Database) where
  -- The rows of List, in the order in which the query for the first page gives them.
  abbrev rows : List ProfileRow
  rows = joined db.users db.profiles

  abbrev all : List ProfileRow
  all = ordered order (page_of size 1) rows

  module _
      (sorts : (less : ProfileRow → ProfileRow → Bool)
        → IsOrder less
        → (params : ListParams) (l : List ProfileRow)
        → Perm l (order.sort params less l) × Sorted less (order.sort params less l))
      (collation : IsCollation order.before)
      (keyed : (p q : ProfileRow)
        → Mem p (joined db.users db.profiles)
        → Mem q (joined db.users db.profiles)
        → p.user_id ≡ q.user_id
        → p ≡ q) where
    ordered_sorts :
        (params : ListParams)
        → Perm rows (ordered order params rows)
          × Sorted (precedes order.before) (ordered order params rows)
    ordered_sorts params =
        sorts (precedes order.before) (precedes-IsOrder order.before collation) params rows

    -- Each page is cut out of the same list.
    ordered_same : (params : ListParams) → ordered order params rows ≡ all
    ordered_same params =
        let (p, s) = ordered_sorts params in
        let (q, t) = ordered_sorts (page_of size 1) in
        Sorted-unique (precedes order.before) (precedes-IsOrder order.before collation)
          (ordered order params rows) all
          (λ a b m n h k.
            keyed a b ((Perm.mem_iff p).1 m) ((Perm.mem_iff p).1 n)
              (precedes_total order.before collation a b h k))
          s t (Perm.trans (Perm.symm p) q)

    list_small :
        (n : ℕ)
        → n * size < 2 ^ 63
        → list order (page_of size (suc n)) db
          ≡ (ok (take size (drop (n * size) (map scan_list_item all)), length rows), db)
    unfolding list
    list_small n h =
        let e = offset_small n size h in
        let small : leb (2 ^ 63) (n * size) ≡ false = ground arith in
        rw
          (
            list,
            e,
            small,
            ordered_same (page_of size (suc n)),
            map-take scan_list_item size (drop (n * size) all),
            map-drop scan_list_item (n * size) all,
          )
          refl

    read_pages-take :
        (n : ℕ)
        → n * size < 2 ^ 63
        → read_pages order size n db ≡ (ok (take (n * size) (map scan_list_item all)), db)
    read_pages-take zero h = let e : 0 * size ≡ 0 = omega arith in rw e refl
    read_pages-take (suc n) h =
        let e : suc n * size ≡ n * size + size = suc-mul n size in
        let less : n * size < 2 ^ 63 = omega (arith, e) in
        rw
          (
            read_pages-take n less,
            list_small n less,
            e,
            ← take-append (n * size) size (map scan_list_item all),
          )
          refl

    -- If the database sorts every query by the test that it is given, its collation tells any two
    -- names apart, and rows of the listing with the same id are the same, then reading the pages 1
    -- to n one after the other gives every item exactly once, by name and then id, where n pages
    -- are enough for the listing and span less than 2^63 items; no page fails.
    pub read_pages_all :
        (n : ℕ)
        → n * size < 2 ^ 63
        → length (joined db.users db.profiles) ≤ n * size
        → (l : List ProfileRow) × Perm (joined db.users db.profiles) l
          × Sorted (precedes order.before) l
          × (read_pages order size n db ≡ (ok (map scan_list_item l), db))
    read_pages_all n small enough =
        let (p, s) = ordered_sorts (page_of size 1) in
        let same = length-Perm p in
        (
          all,
          p,
          s,
          read_pages-take n small
              ∙ ap (λ l. (ok l, db))
                  (take_all (n * size) (map scan_list_item all)
                    (omega (arith, length-map all scan_list_item, same, enough))),
        )
