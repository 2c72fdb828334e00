-- ===== src/Api/AccessList/Laws.antt =====
-- What the access lists answer. The map of the users is never made, so that it is nil.
use tensor.Prelude.{
  ◌≡◌, refl, ◌≢◌, ◌⊎◌, inl, inr, true, false, Option, none, some, String, List, [], ◌∷◌, ◌∙◌, ◌==◌,
  string_eq, string_eq_iff, Some, arith, Option-cases, Bool-cases,
}
use tensor.Models.{AccessControl, User, Organization}
use tensor.Api.{panicked, bad_page, PageQuery, send_page}
use tensor.Api.AccessList.{
  Access, Side, direct, indirect, append_access, collect, build_access, access_list, users_of,
  send_access,
}

-- An entry for a user, with a role that the handler describes.
abbrev pub IsDescribed : (String → Option Access) → AccessControl → Type 0
IsDescribed describe v = (v.type ≡ "user") × (describe v.role ≢ none)

collect_known :
    (side : Side) (describe : String → Option Access) (v : AccessControl)
    (roles : List AccessControl) (a : Access)
    → (v.type == "user") ≡ true
    → describe v.role ≡ some a
    → collect side describe (v ∷ roles) [] ≡ none
unfolding collect append_access
collect_known side describe v roles a user known = rw user (rw known refl)

collect_other :
    (side : Side) (describe : String → Option Access) (v : AccessControl)
    (roles : List AccessControl)
    → (v.type == "user") ≡ false
    → collect side describe (v ∷ roles) [] ≡ collect side describe roles []
unfolding collect
collect_other side describe v roles other = rw other refl

collect_unknown :
    (side : Side) (describe : String → Option Access) (v : AccessControl)
    (roles : List AccessControl)
    → describe v.role ≡ none
    → collect side describe (v ∷ roles) [] ≡ collect side describe roles []
unfolding collect
collect_unknown side describe v roles unknown = ground (arith, unknown)

-- The loop panics on the nil map where it meets such an entry, and else leaves the map as it is.
abbrev Collected : Side → (String → Option Access) → List AccessControl → Type 0
Collected side describe roles =
    (Some (IsDescribed describe) roles × (collect side describe roles [] ≡ none))
    ⊎ ((Some (IsDescribed describe) roles → ⊥) × (collect side describe roles [] ≡ some []))

skip_entry :
    (side : Side) (describe : String → Option Access) (v : AccessControl)
    (roles : List AccessControl)
    → (IsDescribed describe v → ⊥)
    → collect side describe (v ∷ roles) [] ≡ collect side describe roles []
    → Collected side describe roles
    → Collected side describe (v ∷ roles)
skip_entry side describe v roles other same (inl (d, e)) = inl (inr d, same ∙ e)
skip_entry side describe v roles other same (inr (d, e)) =
    inr (λ h. elim h [ inl x ↦ other x | inr x ↦ d x ], same ∙ e)

collect-cases :
    (side : Side) (describe : String → Option Access) (roles : List AccessControl)
    → Collected side describe roles
unfolding collect
collect-cases side describe [] = inr (λ h. absurd h, refl)
collect-cases side describe (v ∷ roles) =
    let ih = collect-cases side describe roles in
    elim (Bool-cases (v.type == "user")) [
      | inr other ↦
          skip_entry side describe v roles
            (λ h. ground (arith, h, other, string_eq_iff v.type "user"))
            (collect_other side describe v roles other) ih
      | inl user ↦ elim (Option-cases (describe v.role)) [
        | inl unknown ↦
            skip_entry side describe v roles (λ h. h.1 unknown)
              (collect_unknown side describe v roles unknown) ih
        | inr (a, known) ↦ inl (
          inl ((string_eq_iff v.type "user").0 user, λ e. absurd (cc)),
          collect_known side describe v roles a user known,
        )
      ]
    ]

module _ (find_user : String → Option User) (q : PageQuery) (o : Organization)
    (of_organization : Organization → String → Option Access) (of_object : String → Option Access)
    (roles : List AccessControl) where
  -- Once the organization has been found, an access list panics if the organization or the object
  -- gives a user, not a team, a role that the handler describes. If neither does, the answer is
  -- that of an empty list.
  pub access_list-cases :
      ((Some (IsDescribed (of_organization o)) o.roles ⊎ Some (IsDescribed of_object) roles)
        × (access_list find_user q (some o) of_organization of_object roles ≡ panicked ∷ []))
      ⊎ (((Some (IsDescribed (of_organization o)) o.roles ⊎ Some (IsDescribed of_object) roles) → ⊥)
          × (access_list find_user q (some o) of_organization of_object roles
              ≡ send_page bad_page q []))
  unfolding access_list build_access send_access users_of
  access_list-cases = elim (collect-cases indirect (of_organization o) o.roles) [
    | inl (d, e) ↦ inl (inl d, rw (e, access_list, send_access, build_access) refl)
    | inr (d, e) ↦ elim (collect-cases direct of_object roles) [
      | inl (d', e') ↦ inl (
        inr d',
        rw (e, access_list, send_access, build_access)
            (rw (e', access_list, send_access, build_access) refl),
      )
      | inr (d', e') ↦ inr (
        λ h. elim h [ inl x ↦ d x | inr x ↦ d' x ],
        rw (e, access_list, send_access, build_access)
            (rw (e', access_list, send_access, build_access) refl),
      )
    ]
  ]
