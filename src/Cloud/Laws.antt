-- ===== src/Cloud/Laws.antt =====
-- What a job gets of its cloud credential.
use tensor.Prelude.{
  ◌≡◌, refl, sym, subst, ◌∙◌, ◌≢◌, ◌↔◌, ◌⊎◌, inl, inr, Bool, true, false, Option, none, some, List,
  [], ◌∷◌, ◌++◌, arith, if◌then◌else◌, ◌==◌,
}
use tensor.Prelude.Text.{Text, text_eq, text_beq_iff, codes}
use tensor.Cloud.{
  CloudCredential, aws, rax, gce, azure, Files, Call, write, close, Made, fill_rax, fill_gce,
  gce_variables, Outcome, fill, make_executable, rax_content, rax_cred_file, gce_cred_file, Given,
  returned, panicked, aws_credential, rax_variables, rax_credential, gce_credential,
  azure_credential, nothing_given, get_cloud_credential,
}

-- The kinds for which the function has a case.
unfoldable pub IsSupported : Text → Type 0
IsSupported kind = (kind ≡ aws) ⊎ (kind ≡ rax) ⊎ (kind ≡ gce) ⊎ (kind ≡ azure)

-- The file that `fill` gives is the one that it is given.
fill-file :
    (fs : Files) (name content : Text) (calls : List Call) (then_ : List Call → Made)
    → ((done : List Call) → (then_ done).file ≡ some name)
    → (fill fs name content calls then_).file ≡ some name
unfolding fill
fill-file fs name content calls then_ h =
    let same = h (calls ++ write name content ∷ [] ++ close name ∷ []) in ground (arith, same)

make_executable-file :
    (fs : Files) (name : Text) (calls : List Call)
    → (make_executable fs name calls).file ≡ some name
unfolding make_executable
make_executable-file fs name calls = ground arith

fill_rax-file :
    (fs : Files) (c : CloudCredential) (calls : List Call) (found : Option Text)
    → (fill_rax fs c calls found).file ≡ found
unfolding fill_rax
fill_rax-file fs c calls none = refl
fill_rax-file fs c calls (some name) =
    fill-file fs name (rax_content c) calls (make_executable fs name) (make_executable-file fs name)

fill_gce-file :
    (fs : Files) (decipher : Text → Text) (c : CloudCredential) (calls : List Call)
    (found : Option Text)
    → (fill_gce fs decipher c calls found).file ≡ found
unfolding fill_gce
fill_gce-file fs decipher c calls none = refl
fill_gce-file fs decipher c calls (some name) =
    fill-file fs name (decipher c.ssh_key_data) calls
      (λ done. record { file = some name; failed = false; calls = done }) (λ done. refl)

-- An outcome without error that gives the variables of `env`, and more after them.
Extends : List Text → Outcome → Type 0
Extends env panicked = Unit {0}
Extends env (returned r) = r.error ≡ none → (added : List Text) × (r.env ≡ some (env ++ added))

rax_variables-Extends :
    (env : List Text) (failed : Bool) (calls : List Call) (found : Option Text)
    → Extends env (rax_variables env failed calls found)
unfolding rax_variables Extends
rax_variables-Extends env true calls found = λ wrong. cc
rax_variables-Extends env false calls none = tt
rax_variables-Extends env false calls (some name) = λ fine. (_, refl)

gce_variables-Extends :
    (env : List Text) (c : CloudCredential) (failed : Bool) (calls : List Call)
    (found : Option Text)
    → Extends env (gce_variables env c failed calls found)
unfolding gce_variables Extends
gce_variables-Extends env c failed calls none = tt
gce_variables-Extends env c failed calls (some name) = λ fine. (_, refl)

-- The switch of the function.
select {ℓ} : {A : Type ℓ} → Bool → Bool → Bool → Bool → A → A → A → A → A → A
select p q s t a b c d e = if p then a else if q then b else if s then c else if t then d else e

-- Where the outcomes of the cases have a property, the one that is selected has it, or it is the
-- default.
select-cases {ℓ κ} :
    {A : Type ℓ} (P : A → Type κ) (p q s t : Bool) (a b c d e : A)
    → P a
    → P b
    → P c
    → P d
    → (((p ≡ true) ⊎ (q ≡ true) ⊎ (s ≡ true) ⊎ (t ≡ true)) × P (select p q s t a b c d e))
      ⊎ (((p ≡ false) × (q ≡ false) × (s ≡ false) × (t ≡ false)) × (select p q s t a b c d e ≡ e))
unfolding select
select-cases P true q s t a b c d e pa pb pc pd = inl (inl refl, pa)
select-cases P false true s t a b c d e pa pb pc pd = inl (inr (inl refl), pb)
select-cases P false false true t a b c d e pa pb pc pd = inl (inr (inr (inl refl)), pc)
select-cases P false false false true a b c d e pa pb pc pd = inl (inr (inr (inr refl)), pd)
select-cases P false false false false a b c d e pa pb pc pd = inr ((refl, refl, refl, refl), refl)

-- The tests of the switch against the kinds.
one_of_iff :
    (k a b c d : Text)
    → ((k == a ≡ true) ⊎ (k == b ≡ true) ⊎ (k == c ≡ true) ⊎ (k == d ≡ true))
      ↔ ((k ≡ a) ⊎ (k ≡ b) ⊎ (k ≡ c) ⊎ (k ≡ d))
one_of_iff k a b c d =
    ground (arith, text_beq_iff k a, text_beq_iff k b, text_beq_iff k c, text_beq_iff k d)

none_of :
    (k a b c d : Text)
    → (k == a ≡ false) × (k == b ≡ false) × (k == c ≡ false) × (k == d ≡ false)
    → (k ≡ a) ⊎ (k ≡ b) ⊎ (k ≡ c) ⊎ (k ≡ d)
    → ⊥
none_of k a b c d tests is_one =
    ground (arith, text_beq_iff k a, text_beq_iff k b, text_beq_iff k c, text_beq_iff k d)

-- `get_cloud_credential` extends the variables in its cases, and gives none elsewhere.
get_cloud_credential-cases :
    (fs : Files) (decipher : Text → Text) (env : List Text) (c : CloudCredential)
    → (IsSupported c.kind × Extends env (get_cloud_credential fs decipher env c))
      ⊎ ((IsSupported c.kind → ⊥) × (get_cloud_credential fs decipher env c ≡ nothing_given))
unfolding get_cloud_credential rax_credential gce_credential aws_credential azure_credential select
    Extends IsSupported
get_cloud_credential-cases fs decipher env c =
    let made = rax_cred_file fs c in
    let of_rax = rax_variables-Extends env made.failed made.calls made.file in
    let made' = gce_cred_file fs decipher c in
    let of_gce = gce_variables-Extends env c made'.failed made'.calls made'.file in
    elim (select-cases (Extends env) (c.kind == aws) (c.kind == rax) (c.kind == gce)
      (c.kind == azure) (aws_credential decipher env c) (rax_credential env made)
      (gce_credential env c made') (azure_credential decipher env c) nothing_given
      (λ fine. (_, refl)) of_rax of_gce (λ fine. (_, refl))) [
        | inl (kind, good) ↦ inl ((one_of_iff c.kind aws rax gce azure).0 kind, good)
        | inr (kinds, same) ↦ inr (none_of c.kind aws rax gce azure kinds, same)
      ]

extended :
    (env : List Text) (r : Given)
    → Extends env (returned r)
    → r.error ≡ none
    → (added : List Text) × (r.env ≡ some (env ++ added))
unfolding Extends
extended env r good fine = good fine

no_env : (r : Given) → nothing_given ≡ returned r → r.env ≡ none
unfolding nothing_given
no_env r same = cc

-- Where the call returns without an error, the variables that it is given stay, with others after them, exactly if the credential has one of the four kinds with a case. For any other kind no variable is left.
pub get_cloud_credential-env :
    (fs : Files) (decipher : Text → Text) (env : List Text) (c : CloudCredential) (r : Given)
    → get_cloud_credential fs decipher env c ≡ returned r
    → r.error ≡ none
    → (IsSupported c.kind × (added : List Text) × (r.env ≡ some (env ++ added)))
      ⊎ ((IsSupported c.kind → ⊥) × (r.env ≡ none))
get_cloud_credential-env fs decipher env c r e fine =
    elim (get_cloud_credential-cases fs decipher env c) [
      | inl (kind, good) ↦
          let kept = extended env r (subst (Extends env) e good) fine in inl (kind, kept.0, kept.1)
      | inr (kinds, same) ↦ inr (kinds, no_env r (sym same ∙ e))
    ]

false-true : false ≢ true
false-true = λ same. cc

rax_variables-ne :
    (env : List Text) (failed : Bool) (calls : List Call) (found : Option Text)
    → (found ≡ none → failed ≡ true)
    → rax_variables env failed calls found ≢ panicked
unfolding rax_variables
rax_variables-ne env true calls found h = λ same. cc
rax_variables-ne env false calls none h = λ same. absurd (false-true (h refl))
rax_variables-ne env false calls (some name) h = λ same. cc

fill_rax-failed :
    (fs : Files) (c : CloudCredential) (calls : List Call) (found : Option Text)
    → (fill_rax fs c calls found).file ≡ none
    → (fill_rax fs c calls found).failed ≡ true
unfolding fill_rax
fill_rax-failed fs c calls none h = refl
fill_rax-failed fs c calls (some name) h = let kept = fill_rax-file fs c calls (some name) in cc

rax_credential-ne :
    (fs : Files) (env : List Text) (c : CloudCredential)
    → rax_credential env (rax_cred_file fs c) ≢ panicked
unfolding rax_credential rax_cred_file
rax_credential-ne fs env c = rax_variables-ne env _ _ _ (fill_rax-failed fs c _ _)

gce_variables-panicked :
    (env : List Text) (c : CloudCredential) (failed : Bool) (calls : List Call)
    (found : Option Text)
    → (gce_variables env c failed calls found ≡ panicked) ↔ (found ≡ none)
unfolding gce_variables
gce_variables-panicked env c failed calls none = (λ h. refl, λ h. refl)
gce_variables-panicked env c failed calls (some name) = (λ h. cc, λ h. cc)

gce_credential-panicked :
    (fs : Files) (decipher : Text → Text) (env : List Text) (c : CloudCredential)
    → (gce_credential env c (gce_cred_file fs decipher c) ≡ panicked)
      ↔ (fs.temp_file (codes "tensor_credential_gce") ≡ none)
unfolding gce_credential gce_cred_file
gce_credential-panicked fs decipher env c =
    let prefix = codes "tensor_credential_gce" in
    let made = gce_cred_file fs decipher c in
    let kept = fill_gce-file fs decipher c (Call.temp_file prefix ∷ []) (fs.temp_file prefix) in
    let panics = gce_variables-panicked env c made.failed made.calls made.file in
    (λ h. sym kept ∙ panics.0 h, λ h. panics.1 (kept ∙ h))

-- The third case alone can give the default of the switch's outcomes.
select-third {ℓ} :
    {A : Type ℓ} (x : A) (p q s t : Bool) (a b c d e : A)
    → a ≢ x
    → b ≢ x
    → d ≢ x
    → e ≢ x
    → (select p q s t a b c d e ≡ x) ↔ ((p ≡ false) × (q ≡ false) × (s ≡ true) × (c ≡ x))
unfolding select
select-third x p q s t a b c d e na nb nd ne = ground (arith, na, nb, nd, ne)

-- The tests of the switch at Google's kind.
gce_tests : (k : Text) → k ≡ gce → (k == aws ≡ false) × (k == rax ≡ false) × (k == gce ≡ true)
gce_tests k e =
    subst (λ k. (k == aws ≡ false) × (k == rax ≡ false) × (k == gce ≡ true)) (sym e)
      (refl, refl, refl)

-- Passing on a cloud credential panics exactly if its kind is "gce" and no file can be made for it.
pub get_cloud_credential-panicked_iff :
    (fs : Files) (decipher : Text → Text) (env : List Text) (c : CloudCredential)
    → (get_cloud_credential fs decipher env c ≡ panicked)
      ↔ ((c.kind ≡ gce) × (fs.temp_file (codes "tensor_credential_gce") ≡ none))
unfolding get_cloud_credential aws_credential azure_credential nothing_given select
get_cloud_credential-panicked_iff fs decipher env c =
    let found =
      select-third panicked (c.kind == aws) (c.kind == rax) (c.kind == gce) (c.kind == azure)
        (aws_credential decipher env c) (rax_credential env (rax_cred_file fs c))
        (gce_credential env c (gce_cred_file fs decipher c)) (azure_credential decipher env c)
        nothing_given (λ same. cc) (rax_credential-ne fs env c) (λ same. cc) (λ same. cc) in
    let panics = gce_credential-panicked fs decipher env c in
    (
      λ h. let at = found.0 h in ((text_beq_iff c.kind gce).0 at.2, panics.0 at.3),
      λ (kind, none_made).
          let tests = gce_tests c.kind kind in
          found.1 (tests.0, tests.1, tests.2, panics.1 none_made),
    )
