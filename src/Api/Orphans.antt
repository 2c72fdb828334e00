-- ===== src/Api/Orphans.antt =====
-- What is left of an organization after its removal (api/organization.go).
use tensor.Prelude.{
  ◌≡◌, refl, inl, inr, Bool, Option, none, some, String, List, [], ◌∷◌, Some, Bool-cases, arith,
}
use tensor.Models.{User}
use tensor.Database.Server.{
  Collection, organizations, projects, inventories, teams, credentials, jobs, job_templates,
  terraform_jobs, terraform_job_templates, hosts, groups,
}
use tensor.Api.{Write, fire, note, sent, empty, remove_id, remove_where, Event, effects, statuses}
use tensor.Api.Organization.{OrganizationData, Reads, remove_all, removals, delete}

-- A document as a removal sees it: its collection, its id, and its fields that name other documents.
pub record Document : Type 0 where
  pub collection : Collection
  pub id : String
  pub field : String → Option String

-- MongoDB's documented removals.
abbrev pub Removes : {D : Type 0} → Write D → Document → Type 0
Removes (remove_id c id) d = (d.collection ≡ c) × (d.id ≡ id)
Removes (remove_where c f ids) d = (d.collection ≡ c) × Some (λ i. d.field f ≡ some i) ids
Removes _ d = ⊥

-- The collections whose documents name an organization, a project or an inventory.
pub data InOrganization : Collection → Type 0 where
  a_project : InOrganization projects
  an_inventory : InOrganization inventories
  a_team : InOrganization teams
  a_credential : InOrganization credentials

pub data InProject : Collection → Type 0 where
  a_job : InProject jobs
  a_template : InProject job_templates
  a_terraform_job : InProject terraform_jobs
  a_terraform_template : InProject terraform_job_templates

pub data InInventory : Collection → Type 0 where
  a_host : InInventory hosts
  a_group : InInventory groups

-- A stored document of a collection that names the organization.
abbrev pub Names : (Document → Type 0) → Collection → String → Document → Type 0
Names stored c o p = stored p × (p.collection ≡ c) × (p.field "organization_id" ≡ some o)

-- The organization itself, what names it, and what names one of its stored projects or inventories.
pub data Belongs (stored : Document → Type 0) (o : String) (d : Document) : Type 0 where
  itself : d.collection ≡ organizations → d.id ≡ o → Belongs stored o d
  directly : InOrganization d.collection → d.field "organization_id" ≡ some o → Belongs stored o d
  by_project :
      (p : Document)
      → InProject d.collection
      → Names stored projects o p
      → d.field "project_id" ≡ some p.id
      → Belongs stored o d
  by_inventory :
      (v : Document)
      → InInventory d.collection
      → Names stored inventories o v
      → d.field "inventory_id" ≡ some v.id
      → Belongs stored o d

-- Where the chain of removals is answered with 204, it has made each of them.
remove_all-done :
    {D A : Type 0} (Q : Write D → Type 0) (works : Write D → Bool) (ws : List (Write D × String))
    (rest : List (Event D A))
    → Some (λ s. s ≡ 204) (statuses (remove_all works ws rest))
    → Some (λ x. Q x.0) ws
    → Some Q (effects (remove_all works ws rest))
unfolding remove_all effects statuses
remove_all-done Q works [] rest h m = absurd m
remove_all-done Q works ((w, failure) ∷ ws) rest h m = elim (Bool-cases (works w)) [
  | inl succeeds ↦
      let h : Some (λ s. s ≡ 204) (statuses (remove_all works ws rest)) = rw succeeds at h in
      rw succeeds
        (elim m [ inl q ↦ inl q | inr later ↦ inr (remove_all-done Q works ws rest h later) ])
  | inr fails ↦ elim (rw fails at h) [ inl e ↦ absurd (omega (arith, e)) | inr e ↦ absurd e ]
]

named :
    (ids : List String) (id : String) (o : Option String)
    → o ≡ some id
    → Some (λ i. i ≡ id) ids
    → Some (λ i. o ≡ some i) ids
named [] id o e h = absurd h
named (i ∷ ids) id o e (inl same) = inl (rw same e)
named (i ∷ ids) id o e (inr later) = inr (named ids id o e later)

module _ (o : String) (pids iids : List String) (d : Document) where
  Hit : Type 0
  Hit = Some (λ x. Removes x.0 d) (removals o pids iids)

  hit_in_organization :
      (c : Collection)
      → InOrganization c
      → d.collection ≡ c
      → d.field "organization_id" ≡ some o
      → Hit
  unfolding removals Hit
  hit_in_organization _ a_project e f = inr (inr (inr (inr (inl (e, inl f)))))
  hit_in_organization _ an_inventory e f = inr (inr (inr (inr (inr (inr (inr (inl (e, inl f))))))))
  hit_in_organization _ a_team e f = inr (inr (inr (inr (inr (inr (inr (inr (inl (e, inl f)))))))))
  hit_in_organization _ a_credential e f =
      inr (inr (inr (inr (inr (inr (inr (inr (inr (inl (e, inl f))))))))))

  hit_in_project :
      (c : Collection)
      → InProject c
      → d.collection ≡ c
      → Some (λ i. d.field "project_id" ≡ some i) pids
      → Hit
  unfolding removals Hit
  hit_in_project _ a_job e f = inl (e, f)
  hit_in_project _ a_template e f = inr (inl (e, f))
  hit_in_project _ a_terraform_job e f = inr (inr (inl (e, f)))
  hit_in_project _ a_terraform_template e f = inr (inr (inr (inl (e, f))))

  hit_in_inventory :
      (c : Collection)
      → InInventory c
      → d.collection ≡ c
      → Some (λ i. d.field "inventory_id" ≡ some i) iids
      → Hit
  unfolding removals Hit
  hit_in_inventory _ a_host e f = inr (inr (inr (inr (inr (inl (e, f))))))
  hit_in_inventory _ a_group e f = inr (inr (inr (inr (inr (inr (inl (e, f)))))))

  hit_itself : d.collection ≡ organizations → d.id ≡ o → Hit
  unfolding removals Hit
  hit_itself e f = inr (inr (inr (inr (inr (inr (inr (inr (inr (inr (inl (e, f)))))))))))

  belongs-Hit :
      (stored : Document → Type 0)
      → ((p : Document) → Names stored projects o p → Some (λ i. i ≡ p.id) pids)
      → ((v : Document) → Names stored inventories o v → Some (λ i. i ≡ v.id) iids)
      → Belongs stored o d
      → Hit
  belongs-Hit stored all_projects all_inventories (itself e f) = hit_itself e f
  belongs-Hit stored all_projects all_inventories (directly c f) = hit_in_organization _ c refl f
  belongs-Hit stored all_projects all_inventories (by_project p c n f) =
      hit_in_project _ c refl (named pids p.id (d.field "project_id") f (all_projects p n))
  belongs-Hit stored all_projects all_inventories (by_inventory v c n f) =
      hit_in_inventory _ c refl (named iids v.id (d.field "inventory_id") f (all_inventories v n))

-- Where the removal of an organization is answered with 204, and the database lists all stored
-- projects and inventories that name the organization, its writes remove every document that
-- belongs to it: the organization, its projects, inventories, teams and credentials, the jobs and
-- job templates of both kinds of its projects, and the hosts and groups of its inventories.
pub delete-Removes :
    (r : Reads) (works : Write OrganizationData → Bool) (user : User) (o : OrganizationData)
    (stored : Document → Type 0) (d : Document)
    → ((p : Document)
        → Names stored projects o.organization.id p
        → Some (λ i. i ≡ p.id) (r.project_ids o.organization.id).found)
    → ((v : Document)
        → Names stored inventories o.organization.id v
        → Some (λ i. i ≡ v.id) (r.inventory_ids o.organization.id).found)
    → Some (λ s. s ≡ 204) (statuses (delete r works user o))
    → Belongs stored o.organization.id d
    → Some (λ w. Removes w d) (effects (delete r works user o))
unfolding delete statuses Hit
delete-Removes r works user o stored d all_projects all_inventories h belongs =
    let id = o.organization.id in
    let hit =
      belongs-Hit id (r.project_ids id).found (r.inventory_ids id).found d stored all_projects
        all_inventories belongs in
    elim (Bool-cases (r.project_ids id).closes) [
      | inl closes ↦ rw closes (
          remove_all-done (λ w. Removes w d) works
            (removals id (r.project_ids id).found (r.inventory_ids id).found)
            (fire {A = OrganizationData} works (note "delete" user.id id none)
              (sent 204 empty ∷ []))
            (rw closes at h) hit)
      | inr open_ ↦ elim (rw open_ at h) [ inl e ↦ absurd (omega (arith, e)) | inr e ↦ absurd e ]
    ]
