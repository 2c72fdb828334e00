-- ===== src/Mongo.antt =====
-- The part of MongoDB's query language that the access checks use: the filters that the code
-- writes as `bson.M` and their documented meaning, which the hypotheses on the database name.
-- MongoDB and its driver are not part of the repository.
use tensor.Prelude.{
  ℕ, ◌≡◌, ◌↔◌, Bool, true, false, ◌&&◌, Option, List, [], ◌∷◌, String, Comparable, ◌==◌, any, arith,
  string_eq_iff, string_eq,
}

-- A BSON value of the kinds that the access checks store and compare.
pub data Value : Type 0 where
  object_id : String → Value
  text : String → Value

abbrev pub value_beq : Value → Value → Bool
value_beq (object_id a) (object_id b) = a == b
value_beq (text a) (text b) = a == b
value_beq _ _ = false

pub value_beq_iff : (a b : Value) → (value_beq a b ≡ true) ↔ (a ≡ b)
value_beq_iff (object_id a) (object_id b) = ground (arith, string_eq_iff a b)
value_beq_iff (object_id a) (text b) = (λ h. cc, λ h. cc)
value_beq_iff (text a) (object_id b) = (λ h. cc, λ h. cc)
value_beq_iff (text a) (text b) = ground (arith, string_eq_iff a b)

instance abbrev pub value_eq : Comparable Value
value_eq = record { same = value_beq; same_iff = value_beq_iff }

-- The condition on one path: equality with a value, or `{"$in": values}`.
pub data Condition : Type 0 where
  equals : Value → Condition
  is_in : List Value → Condition

-- A filter document: a conjunction over paths in dot notation.
abbrev pub Query : Type 0
Query = List (String × Condition)

-- A stored document: the values at a path. A path that crosses an array has the values of all its
-- elements, and a path that the document lacks has none.
abbrev pub Document : Type 0
Document = String → List Value

-- A condition holds of a path if one of its values meets it.
pub holds : List Value → Condition → Bool
holds vs (equals w) = any (λ v. v == w) vs
holds vs (is_in ws) = any (λ v. any (λ w. v == w) ws) vs

unfoldable pub matches : Document → Query → Bool
unfolding holds
matches d [] = true
matches d ((path, c) ∷ q) = holds (d path) c && matches d q

-- What `Find(query).Count()` returns. On an error the number may still be read by the caller.
pub record Count : Type 0 where
  pub found : ℕ
  pub error : Option String
