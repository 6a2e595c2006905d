-- ===== src/Tests/Listed.antt =====
-- The pages of a listing of two profiles.
use mathlib.Core.List.{Mem, Perm, eq-or-mem_of_mem-cons, not-mem-nil}
use mathlib.Core.Logic.Or
use native.Mathlib.Nat.{ℕ_set}
use text.Mathlib.TextEquality.{IsScalar-prop}
use courtknights.Common.{◌≡◌, ◌≢◌, ap, sym, List, [], ◌∷◌, map, arith}
use courtknights.Action.{ok}
use courtknights.Infrastructure.Postgres.{ProfileRow}
use courtknights.Infrastructure.Postgres.Profiles.{precedes, joined, scan_list_item}
use courtknights.Infrastructure.Postgres.Profiles.Sorting.{
  Sorted, insertion_sort-Perm, insertion_sort-Sorted,
}
use courtknights.Infrastructure.Postgres.Profiles.Pages.{read_pages, read_pages_all}
use courtknights.Tests.Collation.{earlier-IsCollation}
use courtknights.Tests.Rows.{ana_row, order, db}

ProfileRow-set : IsSet ProfileRow
ProfileRow-set = hlevel (ℕ_set, IsScalar-prop)

abbrev bea_row : ProfileRow
bea_row = record ana_row { user_id = 8; display_name = "Bea" }

one_of_two :
    {P : Type 0} (p : ProfileRow)
    → IsProp P
    → Mem p (ana_row ∷ bea_row ∷ [])
    → (p ≡ ana_row → P)
    → (p ≡ bea_row → P)
    → P
one_of_two p prop m is_ana is_bea = Or.elim prop (eq-or-mem_of_mem-cons m) is_ana (λ k.
    Or.elim prop (eq-or-mem_of_mem-cons k) is_bea (λ none_left. absurd (not-mem-nil none_left)))

apart : (p q : ProfileRow) → p ≡ ana_row → q ≡ bea_row → p.user_id ≢ q.user_id
apart p q a b e =
    let seven : p.user_id ≡ 7 = ap (λ r. r.user_id) a in
    let eight : q.user_id ≡ 8 = ap (λ r. r.user_id) b in absurd (omega (arith, seven, eight, e))

two_keyed :
    (p q : ProfileRow)
    → Mem p (ana_row ∷ bea_row ∷ [])
    → Mem q (ana_row ∷ bea_row ∷ [])
    → p.user_id ≡ q.user_id
    → p ≡ q
two_keyed p q m n e =
    one_of_two p (ProfileRow-set p q) m
      (λ a. one_of_two q (ProfileRow-set p q) n (λ b. cc (a, b)) (λ b. absurd (apart p q a b e)))
      (λ a.
        one_of_two q (ProfileRow-set p q) n (λ b. absurd (apart q p b a (sym e))) (λ b. cc (a, b)))

read_pages_all_example :
    (l : List ProfileRow) × Perm (joined db.users db.profiles) l
    × Sorted (precedes order.before) l
    × (read_pages order 1 2 db ≡ (ok (map scan_list_item l), db))
read_pages_all_example =
    read_pages_all order 1 db
      (λ less o _ l. (insertion_sort-Perm less l, insertion_sort-Sorted less o l))
      earlier-IsCollation two_keyed 2 (omega arith) (omega arith)
