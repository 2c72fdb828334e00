-- ===== src/QueryParser/Laws.antt =====
-- What a field of the query asks after the lookups.
use tensor.Prelude.{
  ℕ, suc, ◌≡◌, refl, ◌∙◌, ap, Bool, true, false, Option, none, some, List, [], ◌∷◌, ◌++◌, arith,
  if◌then◌else◌, length, leb, Bool-cases, inl, inr, any, ◌||◌, ◌==◌,
}
use tensor.Prelude.Text.{Text, text_eq, text_beq_iff}
use tensor.QueryParser.{
  Criterion, Query, Form, get, put, put_all, each_field, lookups, contains, endswith, eq, exact, gt,
  gte, i_contains, i_endswith, i_exact, i_startswith, in_list, is_null, lt, lte, ne, startswith,
  contains_suffix, contains_criterion, endswith_suffix, endswith_criterion, eq_suffix, eq_criterion,
  exact_suffix, exact_criterion, gt_suffix, gt_criterion, gte_suffix, gte_criterion,
  i_contains_suffix, i_contains_criterion, i_endswith_suffix, i_endswith_criterion, i_exact_suffix,
  i_exact_criterion, i_startswith_suffix, i_startswith_criterion, in_list_suffix, in_list_criterion,
  is_null_suffix, is_null_criterion, lt_suffix, lt_criterion, lte_suffix, lte_criterion, ne_suffix,
  ne_criterion, startswith_suffix, startswith_criterion,
}

-- The last value of a parameter.
abbrev pub last : List Text → Option Text
last [] = none
last (v ∷ []) = some v
last (_ ∷ v ∷ values) = last (v ∷ values)

get-put :
    (k j : Text) (c : Criterion) (query : Query)
    → get k (put j c query) ≡ (if j == k then some c else get k query)
unfolding get put
get-put k j c [] = refl
get-put k j c ((i, d) ∷ query) =
    ground (arith, get-put k j c query, text_beq_iff i j, text_beq_iff i k, text_beq_iff j k)

-- What one lookup makes of a field's criterion: its own, if the parameter has a value.
abbrev pub override : (Text → Criterion) → Option Text → Option Criterion → Option Criterion
override make none old = old
override make (some v) old = some (make v)

last-some : (v : Text) (values : List Text) → (w : Text) × (last (v ∷ values) ≡ some w)
last-some v [] = (v, refl)
last-some v (w ∷ values) = last-some w values

get-put_all :
    (make : Text → Criterion) (k field : Text) (values : List Text) (query : Query)
    → get k (put_all make field values query)
      ≡ (if field == k then override make (last values) (get k query) else get k query)
unfolding put_all
get-put_all make k field [] query = ground arith
get-put_all make k field (v ∷ []) query = get-put k field (make v) query
get-put_all make k field (v ∷ w ∷ values) query =
    let (u, e) = last-some w values in
    rw
      (
        get-put_all make k field (w ∷ values) (put field (make v) query),
        e,
        get-put k field (make v) query,
      )
      (once (field == k) (make u) (make v) (get k query))
  where
    once :
        (b : Bool) (c d : Criterion) (old : Option Criterion)
        → (if b then some c else if b then some d else old) ≡ (if b then some c else old)
    once true c d old = refl
    once false c d old = refl

leb_one : (n : ℕ) → leb 1 (suc n) ≡ true
leb_one n = ground arith

step_field :
    (make : Text → Criterion) (k field : Text) (values : List Text) (query : Query)
    → get k (if leb 1 (length values) then put_all make field values query else query)
      ≡ (if field == k then override make (last values) (get k query) else get k query)
step_field make k field [] query = ground arith
step_field make k field (v ∷ values) query =
    rw (leb_one (length values)) (get-put_all make k field (v ∷ values) query)

override_twice :
    (make : Text → Criterion) (value : Option Text) (old : Option Criterion)
    → override make value (override make value old) ≡ override make value old
override_twice make none old = refl
override_twice make (some v) old = refl

abbrev pub in_fields : Text → List Text → Bool
in_fields k fields = any (λ field. field == k) fields

combine :
    (a b : Bool) (make : Text → Criterion) (value : Option Text) (old : Option Criterion)
    → (let old' = if a then override make value old else old in
        if b then override make value old' else old')
      ≡ (if a || b then override make value old else old)
combine true true make value old = override_twice make value old
combine true false make value old = refl
combine false b make value old = refl

module _ (suffix : Text) (make : Text → Text → Criterion) (form : Form) (k : Text) where
  -- The field of one round is the one that is asked for, or its criterion stays.
  this_field :
      (field : Text) (query : Query)
      → get k (
          if leb 1 (length (form (field ++ suffix)))
          then put_all (make field) field (form (field ++ suffix)) query
          else query)
        ≡ (if field == k
            then override (make k) (last (form (k ++ suffix))) (get k query)
            else get k query)
  this_field field query =
      let stepped = step_field (make field) k field (form (field ++ suffix)) query in
      elim (Bool-cases (field == k)) [
        | inl same ↦ let e : field ≡ k = (text_beq_iff field k).0 same in rw e (rw e at stepped)
        | inr other ↦ rw other (rw other at stepped)
      ]

  -- A lookup sets the criterion of the listed fields only, to that of the last value.
  get-each_field :
      (fields : List Text) (query : Query)
      → get k (each_field suffix make form fields query) ≡ (
          if in_fields k fields
          then override (make k) (last (form (k ++ suffix))) (get k query)
          else get k query)
  unfolding each_field
  get-each_field [] query = refl
  get-each_field (field ∷ fields) query =
      get-each_field fields _
      ∙ ap
          (λ old.
            if in_fields k fields then override (make k) (last (form (k ++ suffix))) old else old)
          (this_field field query)
      ∙ combine (field == k) (in_fields k fields) (make k) (last (form (k ++ suffix))) (get k query)

-- The criterion of a field that may be looked up: of the parameters that have values, the last in
-- the order of the lookups decides alone.
abbrev pub asked : Form → Text → Option Criterion → Option Criterion
asked form k old = override (gte_criterion k) (last (form (k ++ gte_suffix))) (
    override (ne_criterion k) (last (form (k ++ ne_suffix))) (
      override (eq_criterion k) (last (form (k ++ eq_suffix))) (
        override (in_list_criterion k) (last (form (k ++ in_list_suffix))) (
          override (is_null_criterion k) (last (form (k ++ is_null_suffix))) (
            override (lte_criterion k) (last (form (k ++ lte_suffix))) (
              override (lt_criterion k) (last (form (k ++ lt_suffix))) (
                override (gte_criterion k) (last (form (k ++ gte_suffix))) (
                  override (gt_criterion k) (last (form (k ++ gt_suffix))) (
                    override (i_endswith_criterion k) (last (form (k ++ i_endswith_suffix))) (
                      override (endswith_criterion k) (last (form (k ++ endswith_suffix))) (
                        override (i_startswith_criterion k) (last (form (k ++ i_startswith_suffix)))
                          (override (startswith_criterion k) (last (form (k ++ startswith_suffix)))
                            (override (i_contains_criterion k)
                              (last (form (k ++ i_contains_suffix)))
                              (override (contains_criterion k) (last (form (k ++ contains_suffix)))
                                (override (i_exact_criterion k) (last (form (k ++ i_exact_suffix)))
                                  (override (exact_criterion k) (last (form (k ++ exact_suffix)))
                                    old))))))))))))))))

-- A field that the handler lists is asked exactly what `asked` says after all lookups: of the
-- parameters that have values, the last in the order of the lookups decides alone, by its last
-- value; without any, the criterion from before stays.
pub lookups-asked :
    (form : Form) (fields : List Text) (query : Query) (k : Text)
    → in_fields k fields ≡ true
    → get k (lookups form fields query) ≡ asked form k (get k query)
unfolding lookups exact i_exact contains i_contains startswith i_startswith endswith i_endswith gt
    gte lt lte is_null in_list eq ne
lookups-asked form fields query k listed = simp (get-each_field, listed)

-- Whatever parameters a request has, a field that the handler does not list keeps its criterion.
lookups-unlisted :
    (form : Form) (fields : List Text) (query : Query) (k : Text)
    → in_fields k fields ≡ false
    → get k (lookups form fields query) ≡ get k query
unfolding lookups exact i_exact contains i_contains startswith i_startswith endswith i_endswith gt
    gte lt lte is_null in_list eq ne
lookups-unlisted form fields query k unlisted = simp (get-each_field, unlisted)
