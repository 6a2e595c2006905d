-- ===== src/Api/Profile/Listing/Params.antt =====
-- What `listUsers` asks the manager for.
use courtknights.Common.{
  ℕ, ◌≤◌, String, ◌≡◌, ◌⊎◌, refl, true, some, List, [], ◌∷◌, contains, trim_space, arith, All,
  Bool-cases, Option-cases, inl, inr, ◌==◌, ltb, subst, ap,
}
use courtknights.Domain.User.{Uuid}
use courtknights.Domain.Profile.{ListParams}
use courtknights.Api.Response.{Response, http_error}
use courtknights.Api.Profile.Handler.{ProfileManager, Decoded, decoded, refused}
use courtknights.Api.Profile.Listing.{
  allowed_list_fields, positive, page_of, page_size_of, read_fields, fields_of, split, prepended,
  ask, list_users, ListUsersResponse,
}

abbrev Holds : {A : Type 0} → (A → Type 0) → Decoded A → Type 0
Holds P (decoded a) = P a
Holds P (refused status complaint) = status ≡ 400

positive-ge : (v : String) (n : ℕ) → positive v ≡ some n → 1 ≤ n
unfolding positive
positive-ge v n h = ground (arith, h)

page_of-Holds : (v : String) → Holds (λ n. 1 ≤ n) (page_of v)
unfolding page_of
page_of-Holds v = elim (Bool-cases (v == "")) [
  | inl e ↦ rw e (omega arith)
  | inr e ↦ elim (Option-cases (positive v)) [
    | inl f ↦ rw (e, f) refl
    | inr (n, f) ↦ rw (e, f) (positive-ge v n f)
  ]
]

page_size_of-Holds : (v : String) → Holds (λ n. (1 ≤ n) × (n ≤ 100)) (page_size_of v)
unfolding page_size_of
page_size_of-Holds v = elim (Bool-cases (v == "")) [
  | inl e ↦ rw e (omega arith, omega arith)
  | inr e ↦ elim (Option-cases (positive v)) [
    | inl f ↦ rw (e, f) refl
    | inr (n, f) ↦ elim (Bool-cases (ltb 100 n)) [
      | inl g ↦ rw (e, f, g) refl
      | inr g ↦ rw (e, f, g) (positive-ge v n f, ground (arith, g))
    ]
  ]
]

abbrev pub Allowed : List String → Type 0
Allowed fields = All (λ f. contains allowed_list_fields f ≡ true) fields

prepended-Holds :
    (f : String) (d : Decoded (List String))
    → contains allowed_list_fields f ≡ true
    → Holds Allowed d
    → Holds Allowed (prepended f d)
prepended-Holds f (decoded fields) c h = (c, h)
prepended-Holds f (refused status complaint) c h = h

read_fields-Holds : (parts : List String) → Holds Allowed (read_fields parts)
unfolding read_fields
read_fields-Holds [] = tt
read_fields-Holds (part ∷ parts) =
    elim (Bool-cases (contains allowed_list_fields (trim_space part))) [
      | inl c ↦
          rw c (prepended-Holds (trim_space part) (read_fields parts) c (read_fields-Holds parts))
      | inr c ↦ rw c refl
    ]

fields_of-Holds : (v : String) → Holds Allowed (fields_of v)
unfolding fields_of
fields_of-Holds v = elim (Bool-cases (v == "")) [
  | inl e ↦ rw e tt
  | inr e ↦ rw e (read_fields-Holds (split v))
]

Decoded-cases :
    {A : Type 0} (d : Decoded A)
    → ((a : A) × (d ≡ decoded a))
      ⊎ ((status : ℕ) × (complaint : String) × (d ≡ refused status complaint))
Decoded-cases (decoded a) = inl (a, refl)
Decoded-cases (refused status complaint) = inr (status, complaint, refl)

-- What a request to list the users comes to.
pub data Asked {S : Type 0} (uuid_string : Uuid → String) (m : ProfileManager S) (s : S)
    (r : Response ListUsersResponse × S) : Type 0 where
  bad_request : (complaint : String) → r ≡ (http_error 400 complaint, s) → Asked uuid_string m s r
  within_bounds :
      (params : ListParams)
      → 1 ≤ params.page
      → 1 ≤ params.page_size
      → params.page_size ≤ 100
      → Allowed params.fields
      → r ≡ ask uuid_string m params s
      → Asked uuid_string m s r

-- Whatever the query parameters are, either the request is answered with 400 and nothing is called,
-- or the manager is asked for a page from 1 on, of 1 to 100 users, with fields that are allowed.
pub list_users-Asked :
    {S : Type 0} (uuid_string : Uuid → String) (m : ProfileManager S)
    (page page_size fields : String) (s : S)
    → Asked uuid_string m s (list_users uuid_string m page page_size fields s)
unfolding list_users
list_users-Asked uuid_string m page page_size fields s = elim (Decoded-cases (page_of page)) [
  | inr (status, complaint, a) ↦ bad_request complaint (
      rw a
        (ap (λ x. (http_error x complaint, s)) (subst (Holds (λ n. 1 ≤ n)) a (page_of-Holds page))))
  | inl (p, a) ↦ elim (Decoded-cases (page_size_of page_size)) [
    | inr (status, complaint, b) ↦ bad_request complaint (
        rw (a, b)
          (ap (λ x. (http_error x complaint, s))
            (subst (Holds (λ n. (1 ≤ n) × (n ≤ 100))) b (page_size_of-Holds page_size))))
    | inl (n, b) ↦ elim (Decoded-cases (fields_of fields)) [
      | inr (status, complaint, c) ↦ bad_request complaint (
          rw (a, b, c)
            (ap (λ x. (http_error x complaint, s))
              (subst (Holds Allowed) c (fields_of-Holds fields))))
      | inl (fs, c) ↦
          let bounds = subst (Holds (λ n. (1 ≤ n) × (n ≤ 100))) b (page_size_of-Holds page_size) in
          within_bounds (record { page = p; page_size = n; fields = fs })
            (subst (Holds (λ n. 1 ≤ n)) a (page_of-Holds page)) bounds.0 bounds.1
            (subst (Holds Allowed) c (fields_of-Holds fields)) (rw (a, b, c) refl)
    ]
  ]
]
