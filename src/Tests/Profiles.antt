-- ===== src/Tests/Profiles.antt =====
-- Runs of the profile rules, over a small dataset and a repository that keeps profiles in memory.
use courtknights.Common.{
  ◌≡◌, ◌↔◌, refl, ◌==◌, false, Option, none, some, [], arith, inl, inr, if◌then◌else◌, Option-cases,
  Bool-cases, leb, eqb, subst,
}
use courtknights.Action.{Action, ok, err}
use courtknights.Errors.{Error, sentinel, is, profile_not_found, invalid_location, opaque, join}
use courtknights.Domain.User.{Uuid}
use courtknights.Domain.Profile.{
  Profile, ProfilePatch, unchanged, cleared, set_to, is_empty, ProfileRepository,
}
use courtknights.Domain.Profile.Merge.{merge}
use courtknights.Domain.Profile.Location.{Dataset, validate_location, IsLocation}
use courtknights.Domain.Profile.Location.Validity.{validate_location_iff}
use courtknights.Domain.Profile.Contract.{IsProfileStore, Updates}
use courtknights.Application.Profile.{apply_location_rules, drop_region, same_value, update}
use courtknights.Application.Profile.Location.{
  HasValidLocation, apply_location_rules_complete, apply_location_rules_effect,
}
use courtknights.Application.Profile.Update.{Outcome, update-Outcome, AllValid, update-AllValid}

-- Spain with Madrid, and France; every other text is unknown.
abbrev pub countries : Dataset
countries = record {
  to_upper = λ s. if s == "es" then "ES" else s;
  by_name = λ s. if s == "ES" then 724 else if s == "FR" then 250 else 0;
  is_valid = λ n. leb 1 n;
  alpha2 = λ n. if eqb n 724 then "ES" else if eqb n 250 then "FR" else "";
  subdivision_is_valid = λ s. s == "ES-MD";
  subdivision_country = λ s. if s == "ES-MD" then 724 else 0;
}

abbrev pub player : Profile
player = record {
  user_id = 7;
  display_name = "Ana";
  city = some "Madrid";
  region = some "ES-MD";
  country = some "ES";
  gender = none;
  date_of_birth = none;
  category = none;
  preferences = record { court_side = none; handedness = none };
  created_at = 1;
  updated_at = 1;
}

abbrev no_change : ProfilePatch
no_change = record {
  display_name = none;
  city = unchanged;
  region = unchanged;
  country = unchanged;
  gender = unchanged;
  date_of_birth = unchanged;
  category = unchanged;
  preferences = record { clear = false; court_side = unchanged; handedness = unchanged };
}

abbrev pub to_france : ProfilePatch
to_france = record no_change { country = set_to "FR" }

abbrev pub Memory : Type 0
Memory = Uuid → Option Profile

abbrev write : Memory → Uuid → Profile → Memory
write s u p v = if eqb v u then some p else s v

abbrev write_merged : Uuid → ProfilePatch → Memory → Option Profile → Action Memory Profile
write_merged u patch s none _ = (err (sentinel profile_not_found), s)
write_merged u patch s (some p) _ =
    let q = record (merge patch p) { updated_at = 9 } in (ok q, write s u q)

abbrev pub memory : ProfileRepository Memory
memory = record {
  ensure_exists = λ u name s. (ok tt, s);
  find_by_user_id =
      λ u s. elim (s u) [ none ↦ (err (sentinel profile_not_found), s) | some p ↦ (ok p, s) ];
  update = λ u patch s. write_merged u patch s (s u) s;
  list = λ params s. (ok ([], 0), s);
}

abbrev pub look : Uuid → Memory → Option Profile
look u s = s u

memory-Updates : (u : Uuid) (patch : ProfilePatch) (s : Memory) → Updates memory look u patch s
memory-Updates u patch s = elim (Option-cases (s u)) [
  | inl absent ↦ inl (sentinel profile_not_found, rw absent)
  | inr (p, present) ↦ inr (
    p,
    9,
    write s u (record (merge patch p) { updated_at = 9 }),
    present,
    rw present,
    ground arith,
    λ v other. ground arith,
  )
]

pub memory_contract : IsProfileStore memory look
unfolding is
memory_contract = record {
  found = λ u s p present. rw present;
  missing = λ u s absent. (sentinel profile_not_found, rw absent, refl);
  updates = memory-Updates;
}

abbrev pub start : Memory
start u = if eqb u 7 then some player else none

pub player_location : HasValidLocation countries player
player_location = (
  record { two_bytes = refl; upper = refl; known = refl; exact = refl },
  record { nonempty = λ e. cc; known = refl; belongs = refl },
)

start_valid : AllValid countries memory look memory_contract start
start_valid u p held = elim (Bool-cases (eqb u 7)) [
  | inl same ↦
      let it : player ≡ p = ground arith in subst (HasValidLocation countries) it player_location
  | inr other ↦ absurd (ground arith)
]

validate_location_iff_example :
    (validate_location countries (some "FR") (some "ES-MD") ≡ ok tt)
    ↔ IsLocation countries (some "FR") (some "ES-MD")
validate_location_iff_example = validate_location_iff countries (some "FR") (some "ES-MD")

abbrev madrid_in_france : Error
madrid_in_france =
    join "" (sentinel invalid_location)
      (opaque "region code \"ES-MD\" does not belong to country \"FR\"")

france_location : HasValidLocation countries (merge (drop_region player to_france) player)
unfolding merge same_value
france_location = record { two_bytes = refl; upper = refl; known = refl; exact = refl }

apply_location_rules_complete_example :
    apply_location_rules countries player to_france ≡ ok (drop_region player to_france)
apply_location_rules_complete_example =
    apply_location_rules_complete countries player to_france (λ e. refl) (λ e. cc) france_location

apply_location_rules_effect_example :
    let p = merge (record to_france { region = cleared }) player in
    (p.country ≡ some "FR")
    × (p.region ≡ none)
    × (record p { region = none } ≡ record (merge to_france player) { region = none })
unfolding apply_location_rules same_value validate_location
apply_location_rules_effect_example =
    apply_location_rules_effect countries player to_france (record to_france { region = cleared })
      refl

update-Outcome_example :
    Outcome countries memory look memory_contract 7 to_france start
      (update countries memory 7 to_france start)
update-Outcome_example = update-Outcome countries memory look memory_contract 7 to_france start

abbrev moved : Profile
moved = record player { country = some "FR"; region = none; updated_at = 9 }

update-AllValid_example : HasValidLocation countries moved
unfolding update apply_location_rules same_value validate_location is_empty merge
update-AllValid_example =
    update-AllValid countries memory look memory_contract 7 to_france start start_valid 7 moved refl

update_moves : (update countries memory 7 to_france start).0 ≡ ok moved
unfolding update apply_location_rules same_value validate_location is_empty merge
update_moves = refl
