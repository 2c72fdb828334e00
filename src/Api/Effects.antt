-- ===== src/Api/Effects.antt =====
-- What a guard before a handler says of the writes that happen.
use tensor.Prelude.{
  ◌≡◌, ◌≢◌, refl, inl, inr, Bool, true, false, Bool-cases, List, [], ◌∷◌, if◌then◌else◌,
}
use tensor.Api.{Write, Event, did, try, Passage, passed, refused, effects, through}

-- Behind a middleware that refuses, nothing is written.
pub through-effects :
    {D E A : Type 0} (x : Passage D) (handler : D → List (Event E A))
    → effects (through x handler) ≢ []
    → (d : D) × (x ≡ passed d)
unfolding effects through
through-effects (passed d) handler h = (d, refl)
through-effects (refused status text) handler h = absurd (h refl)

-- A test that ends a handler with an answer, and without a write.
pub if-effects :
    {D A : Type 0} (b : Bool) (xs ys : List (Event D A))
    → effects xs ≡ []
    → effects (if b then xs else ys) ≢ []
    → (b ≡ false) × (effects ys ≢ [])
if-effects true xs ys e h = absurd (h e)
if-effects false xs ys e h = (refl, h)

-- A write that succeeds is the first effect.
effects-did :
    {D A : Type 0} (b : Bool) (w : Write D) (events : List (Event D A))
    → b ≡ true
    → effects (did w b ∷ events) ≡ w ∷ effects events
unfolding effects
effects-did true w events h = refl
effects-did false w events h = absurd (cc)

-- Where all is well, a write that succeeds is there.
pub effects-some :
    {D A : Type 0} (b : Bool) (w : Write D) (events : List (Event D A))
    → b ≡ true
    → effects (did w b ∷ events) ≢ []
effects-some b w events e h = let first = effects-did b w events e in cc

-- A write whose failure ends the handler without another write.
pub try-effects :
    {D A : Type 0} (works : Write D → Bool) (w : Write D) (failure rest : List (Event D A))
    → effects failure ≡ []
    → effects (try works w failure rest) ≢ []
    → works w ≡ true
unfolding effects
try-effects works w failure rest e h = elim (Bool-cases (works w)) [
  | inl succeeds ↦ succeeds
  | inr fails ↦ absurd ((rw fails at h) e)
]
