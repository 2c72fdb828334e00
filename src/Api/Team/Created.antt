-- ===== src/Api/Team/Created.antt =====
-- What is checked before a team is created, and what is not.
use tensor.Prelude.{
  ◌≡◌, ◌≢◌, refl, sym, ◌∙◌, ◌↔◌, inl, inr, Bool, true, false, not, String, List, [], Bool-cases,
  arith,
}
use tensor.Models.{User}
use tensor.Rbac.Engine.{counted}
use tensor.Rbac.Organization as rbac_organization
use tensor.Api.{Write, Event, insert, effects, bound}
use tensor.Api.Effects.{if-effects, effects-some, try-effects}
use tensor.Api.Team.{TeamData, Reads, create, check_organization, insert_team, new_team}

-- The check of the right only answers.
check_organization-effects :
    (r : Reads) (user : User) (id : String) (rest : List (Event TeamData TeamData))
    → effects (check_organization r user id rest) ≡ effects rest
unfolding check_organization effects
check_organization-effects r user id rest =
    elim (Bool-cases (rbac_organization.write_by_id r.db user id)) [
      | inl may ↦ rw may refl
      | inr refused ↦ rw refused refl
    ]

check_organization-writes :
    (r : Reads) (user : User) (id : String) (rest : List (Event TeamData TeamData))
    → effects rest ≢ []
    → effects (check_organization r user id rest) ≢ []
check_organization-writes r user id rest h e =
    h (sym (check_organization-effects r user id rest) ∙ e)

-- The creation of a team writes anything exactly if the organization exists, the name is not used
-- in it, and the team itself can be written, whatever rights the user has.
pub create-effects_iff :
    (r : Reads) (works : Write TeamData → Bool) (user : User) (req : TeamData)
    → (effects (create r works user (bound req)) ≢ []) ↔ (
        (counted (r.count_organization req.team.organization_id) ≡ true)
        × (counted (r.count_named req.team.name req.team.organization_id) ≡ false)
        × (works (insert (new_team r user req)) ≡ true))
unfolding create insert_team effects
create-effects_iff r works user req = (forth, back)
  where
    forth :
        effects (create r works user (bound req)) ≢ []
        → (counted (r.count_organization req.team.organization_id) ≡ true)
          × (counted (r.count_named req.team.name req.team.organization_id) ≡ false)
          × (works (insert (new_team r user req)) ≡ true)
    forth h =
        let (exists, h1) =
          if-effects (not (counted (r.count_organization req.team.organization_id))) _ _ refl h in
        let same = check_organization-effects r user req.team.organization_id _ in
        let (unused, h2) =
          if-effects (counted (r.count_named req.team.name req.team.organization_id)) _ _ refl
            (λ e. h1 (same ∙ e)) in
        (not_false _ exists, unused, try-effects works (insert (new_team r user req)) _ _ refl h2)
      where
        not_false : (b : Bool) → not b ≡ false → b ≡ true
        not_false b e = ground (arith, e)

    back :
        (counted (r.count_organization req.team.organization_id) ≡ true)
          × (counted (r.count_named req.team.name req.team.organization_id) ≡ false)
          × (works (insert (new_team r user req)) ≡ true)
        → effects (create r works user (bound req)) ≢ []
    back (exists, unused, stored) = rw exists (
        check_organization-writes r user req.team.organization_id _
          (rw unused (effects-some _ (insert (new_team r user req)) _ stored)))
