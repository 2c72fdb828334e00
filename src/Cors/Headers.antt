-- ===== src/Cors/Headers.antt =====
-- Reading a header after the updates of the response.
use tensor.Prelude.{◌≡◌, refl, ◌∙◌, ◌≢◌, Option, none, some, List, [], ◌∷◌, ◌++◌, arith}
use tensor.Prelude.Text.{Text}
use tensor.Cors.{Key, Key-discrete, Context, remove, set_header}

-- The value of a header in the response.
unfoldable pub value : Key → List (Key × Text) → Option Text
value k [] = none
value k ((j, v) ∷ sent) =
    let rest = value k sent in elim (Key-discrete j k) [ yes _ ↦ some v | no _ ↦ rest ]

value-cons_self : (k : Key) (v : Text) (sent : List (Key × Text)) → value k ((k, v) ∷ sent) ≡ some v
unfolding value
value-cons_self k v sent =
    elim (Key-discrete k k) as (λ d. (elim d [ yes _ ↦ some v | no _ ↦ value k sent ]) ≡ some v) [
      | yes _ ↦ refl
      | no ne ↦ absurd (ne refl)
    ]

pub value-cons_ne :
    (j k : Key) (v : Text) (sent : List (Key × Text))
    → j ≢ k
    → value k ((j, v) ∷ sent) ≡ value k sent
unfolding value
value-cons_ne j k v sent ne =
    elim (Key-discrete j k)
      as (λ d. (elim d [ yes _ ↦ some v | no _ ↦ value k sent ]) ≡ value k sent) [
        | yes e ↦ absurd (ne e)
        | no _ ↦ refl
      ]

pub value-remove_ne :
    (j k : Key) (sent : List (Key × Text)) → j ≢ k → value k (remove j sent) ≡ value k sent
unfolding value remove
value-remove_ne j k [] ne = refl
value-remove_ne j k ((i, v) ∷ sent) ne = ground (arith, value-remove_ne j k sent ne)

pub value-set_self : (k : Key) (v : Text) (c : Context) → value k (set_header k v c).sent ≡ some v
unfolding set_header
value-set_self k v c = value-cons_self k v (remove k c.sent)

pub value-set_ne :
    (j k : Key) (v : Text) (c : Context) → j ≢ k → value k (set_header j v c).sent ≡ value k c.sent
unfolding set_header
value-set_ne j k v c ne = value-cons_ne j k v (remove j c.sent) ne ∙ value-remove_ne j k c.sent ne

pub value-append_ne :
    (j k : Key) (v : Text) (sent : List (Key × Text))
    → j ≢ k
    → value k (sent ++ (j, v) ∷ []) ≡ value k sent
unfolding value
value-append_ne j k v [] ne = value-cons_ne j k v [] ne
value-append_ne j k v ((i, w) ∷ sent) ne = ground (arith, value-append_ne j k v sent ne)
