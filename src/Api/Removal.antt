-- ===== src/Api/Removal.antt =====
-- What is left behind when a user or a team is deleted.
use tensor.Prelude.{
  subst, ◌≡◌, ◌≢◌, refl, ap, sym, ◌∙◌, ◌↔◌, ◌⊎◌, inl, inr, Bool, none, some, String, List, [], ◌∷◌,
  All, Some, Bool-cases,
}
use tensor.Models.{AccessControl, User}
use tensor.Database.Server.{Server, Keeps, Has, Collection, pull, users, teams}
use tensor.Api.{
  Write, pull_from, remove_id, note, sent, empty, Event, effects, abort_with_error, try, fire,
}
use tensor.Api.User as user_api
use tensor.Api.Team as team_api

-- The pulls of a chain all name the same entry.
pull_all-effects :
    {D A : Type 0} (works : Write D → Bool) (cs : List Collection) (x y : AccessControl)
    (c : Collection) (failure : String) (rest : List (Event D A))
    → Some (λ w. w ≡ pull_from c y) (effects (user_api.pull_all works cs x failure rest))
    → (y ≡ x) ⊎ Some (λ w. w ≡ pull_from c y) (effects rest)
unfolding user_api.pull_all effects
pull_all-effects works [] x y c failure rest h = inr h
pull_all-effects {D} {A} works (d ∷ cs) x y c failure rest h =
    elim (Bool-cases (works (pull_from d x))) [
      | inl succeeds ↦
          let e : effects (user_api.pull_all works (d ∷ cs) x failure rest)
              ≡ pull_from d x ∷ effects (user_api.pull_all works cs x failure rest) =
            rw succeeds refl in
          elim (subst (Some (λ w. w ≡ pull_from c y)) e h) [
            | inl same ↦ inl (cc)
            | inr more ↦ pull_all-effects works cs x y c failure rest more
          ]
      | inr fails ↦
          let e : effects (user_api.pull_all works (d ∷ cs) x failure rest) ≡ [] = rw fails refl in
          absurd (subst (Some (λ w. w ≡ pull_from c y)) e h)
    ]

-- No other removal is a pull.
closing-no_pull :
    {D : Type 0} (A : Type 0) (works : Write D → Bool) (gone : Collection)
    (id actor failure : String) (c : Collection) (y : AccessControl)
    → Some
        (λ w. w ≡ pull_from c y)
        (effects (
          try {A = A} works
            (remove_id gone id)
            (abort_with_error 504 failure)
            (fire works (note "delete" actor id none) (sent 204 empty ∷ []))))
    → ⊥
unfolding effects
closing-no_pull A works gone id actor failure c y h =
    elim (Bool-cases (works (remove_id gone id))) [
      | inl succeeds ↦ elim (Bool-cases (works (note "delete" actor id none))) [
        | inl noted ↦ elim (rw noted at (rw succeeds at h)) [
          | inl e ↦ cc
          | inr (inl e) ↦ cc
          | inr (inr e) ↦ absurd e
        ]
        | inr lost ↦ elim (rw lost at (rw succeeds at h)) [ inl e ↦ cc | inr e ↦ absurd e ]
      ]
      | inr fails ↦ absurd (rw fails at h)
    ]

-- Pulling an entry without a type from a list of entries with types leaves them all.
pull-typed :
    (server : Server) (keeps : Keeps server) (s : server.Store) (c : Collection)
    (id grantee : String) (old : List AccessControl)
    → (server.update_id c id (pull (user_api.grants_of grantee)) s).1 ≡ none
    → server.roles s c id ≡ some old
    → All (λ v. v.type ≢ "") old
    → (new : List AccessControl) × (server.roles
          (server.update_id c id (pull (user_api.grants_of grantee)) s).0
          c
          id
        ≡ some new)
      × ((y : AccessControl) → Has y new ↔ Has y old)
unfolding user_api.grants_of
pull-typed server keeps s c id grantee old done stored typed =
    let x = user_api.grants_of grantee in
    let (was, new, before, after, same) = keeps.pulled c id x s done in
    let same_list : was ≡ old = some-eq (sym before ∙ stored) in
    (
      new,
      after,
      λ y. (
        λ h. subst (Has y) same_list ((same y).0 h).0,
        λ h. (same y).1 (
          subst (Has y) (sym same_list) h,
          λ e. untyped y old typed h (ap (λ v. v.type) (sym e)),
        ),
      ),
    )
  where
    some-eq : {a b : List AccessControl} → some a ≡ some b → a ≡ b
    some-eq e = cc

    untyped :
        (y : AccessControl) (roles : List AccessControl)
        → All (λ v. v.type ≢ "") roles
        → Has y roles
        → y.type ≡ ""
        → ⊥
    untyped y [] t h e = h
    untyped y (v ∷ roles) t (inl h) e = t.0 (ap (λ v. v.type) h ∙ e)
    untyped y (v ∷ roles) t (inr h) e = untyped y roles t.1 h e

user-pulled :
    (works : Write user_api.UserData → Bool) (user : User) (u : user_api.UserData) (c : Collection)
    (x : AccessControl)
    → Some (λ w. w ≡ pull_from c x) (effects (user_api.delete works user u))
    → x ≡ user_api.grants_of u.user.id
unfolding user_api.delete
user-pulled works user u c x h =
    elim (pull_all-effects works user_api.granted (user_api.grants_of u.user.id) x c
      "Error while removing user" _ h) [
        | inl e ↦ e
        | inr more ↦ absurd (
            closing-no_pull user_api.UserData works users u.user.id user.id
              "Error while removing user" c x more)
      ]

team-pulled :
    (works : Write team_api.TeamData → Bool) (user : User) (t : team_api.TeamData) (c : Collection)
    (x : AccessControl)
    → Some (λ w. w ≡ pull_from c x) (effects (team_api.delete works user t))
    → x ≡ user_api.grants_of t.team.id
unfolding team_api.delete
team-pulled works user t c x h =
    elim (pull_all-effects works user_api.granted (user_api.grants_of t.team.id) x c
      "Error while removing team" _ h) [
        | inl e ↦ e
        | inr more ↦ absurd (
            closing-no_pull team_api.TeamData works teams t.team.id user.id
              "Error while removing team" c x more)
      ]

module _ (server : Server) (keeps : Keeps server) (s : server.Store) (c : Collection) (id : String)
    (old : List AccessControl) (x : AccessControl) where
  pull-same :
      (grantee : String)
      → x ≡ user_api.grants_of grantee
      → (server.update_id c id (pull x) s).1 ≡ none
      → server.roles s c id ≡ some old
      → All (λ v. v.type ≢ "") old
      → (new : List AccessControl) × (server.roles (server.update_id c id (pull x) s).0 c id
          ≡ some new)
        × ((y : AccessControl) → Has y new ↔ Has y old)
  pull-same grantee e done stored typed =
      rw e (pull-typed server keeps s c id grantee old (rw e at done) stored typed)

  -- On a server that keeps role lists as documented: none of the updates with which the removal of
  -- a user, or of a team, pulls its entries takes an entry out of a role list whose entries all
  -- have types that are not empty.
  pub delete-keeps_roles :
      (user : User) (u : user_api.UserData) (t : team_api.TeamData)
      (user_works : Write user_api.UserData → Bool) (team_works : Write team_api.TeamData → Bool)
      → Some (λ w. w ≡ pull_from c x) (effects (user_api.delete user_works user u))
        ⊎ Some (λ w. w ≡ pull_from c x) (effects (team_api.delete team_works user t))
      → (server.update_id c id (pull x) s).1 ≡ none
      → server.roles s c id ≡ some old
      → All (λ v. v.type ≢ "") old
      → (new : List AccessControl) × (server.roles (server.update_id c id (pull x) s).0 c id
          ≡ some new)
        × ((y : AccessControl) → Has y new ↔ Has y old)
  delete-keeps_roles user u t user_works team_works (inl h) =
      pull-same u.user.id (user-pulled user_works user u c x h)
  delete-keeps_roles user u t user_works team_works (inr h) =
      pull-same t.team.id (team-pulled team_works user t c x h)
