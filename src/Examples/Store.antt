-- ===== src/Examples/Store.antt =====
-- A server that keeps one role list for each id, which no two objects share.
use tensor.Prelude.{
  ◌≡◌, refl, ◌↔◌, ◌⊎◌, inl, inr, ◌≢◌, Bool, true, ◌&&◌, none, some, String, List, [], ◌∷◌, arith,
  string_eq_iff, string_eq, ◌==◌, if◌then◌else◌, any, any_iff, Some-imp, Bool-cases,
}
use tensor.Models.{AccessControl}
use tensor.Database.Server.{Server, Keeps, Has, Change, add_to_set, pull}

abbrev pub entry_beq : AccessControl → AccessControl → Bool
entry_beq a b = a.grantee_id == b.grantee_id && a.type == b.type && a.role == b.role

entry_beq_iff : (a b : AccessControl) → (entry_beq a b ≡ true) ↔ (a ≡ b)
entry_beq_iff a b = ground (
  arith,
  string_eq_iff a.grantee_id b.grantee_id,
  string_eq_iff a.type b.type,
  string_eq_iff a.role b.role,
)

abbrev pub add : AccessControl → List AccessControl → List AccessControl
add x roles = if any (λ y. entry_beq y x) roles then roles else x ∷ roles

abbrev pub remove : AccessControl → List AccessControl → List AccessControl
remove x [] = []
remove x (y ∷ roles) = let rest = remove x roles in if entry_beq x y then rest else y ∷ rest

Has-add :
    (x y : AccessControl) (roles : List AccessControl)
    → Has y (add x roles) ↔ (Has y roles ⊎ (x ≡ y))
Has-add x y roles = elim (Bool-cases (any (λ z. entry_beq z x) roles)) [
  | inl there ↦
      let had : Has x roles =
        Some-imp _ _ (λ z e. (entry_beq_iff z x).0 e) roles ((any_iff _ roles).0 there) in
      rw there (λ h. inl h, λ h. elim h [ inl o ↦ o | inr e ↦ rw e at had ])
  | inr fresh ↦
      rw fresh (
        λ h. elim h [ inl e ↦ inr e | inr o ↦ inl o ],
        λ h. elim h [ inl o ↦ inr o | inr e ↦ inl e ],
      )
]

Has-remove :
    (x y : AccessControl) (roles : List AccessControl)
    → Has y (remove x roles) ↔ (Has y roles × (x ≢ y))
Has-remove x y [] = (λ h. absurd h, λ h. h.0)
Has-remove x y (z ∷ roles) = ground (arith, entry_beq_iff x z, Has-remove x y roles)

abbrev pub change_roles : Change → List AccessControl → List AccessControl
change_roles (add_to_set x) roles = add x roles
change_roles (pull x) roles = remove x roles

abbrev pub kept : Server
kept = record {
  Store = String → List AccessControl;
  roles = λ s c id. some (s id);
  update_id = λ c id change s. (λ j. if j == id then change_roles change (s id) else s j, none);
}

self : (id : String) (a b : List AccessControl) → (if id == id then a else b) ≡ a
self id a b = ground (arith, string_eq_iff id id)

pub kept-Keeps : Keeps kept
kept-Keeps = record {
  added = λ c id x s done. (s id, add x (s id), refl, rw (self id) refl, λ y. Has-add x y (s id));
  pulled =
      λ c id x s done. (s id, remove x (s id), refl, rw (self id) refl, λ y. Has-remove x y (s id));
}
