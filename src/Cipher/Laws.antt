-- ===== src/Cipher/Laws.antt =====
-- That what util/cipher.go stores can be read again, or not.
use tensor.Prelude.{
  ℕ, ◌≡◌, ◌∙◌, ap, refl, true, false, none, some, [], ◌∷◌, ◌++◌, ltb, length, take, drop,
  if◌then◌else◌, arith,
}
use tensor.Prelude.Text.{Text}
use tensor.Ansible.{is_set}
use tensor.Cipher.{Aes, cipher, decipher, opened, sealed}

-- Go's library as documented: what was encoded is decoded, and what one key stream has encrypted is
-- decrypted with the same vector.
pub record Inverts (a : Aes) : Type 0 where
  pub decoded : (text : Text) → a.decode (a.encode text) ≡ (text, true)
  pub decoded_empty : a.decode [] ≡ ([], true)
  pub decrypted : (iv text : Text) → a.decrypt iv (a.encrypt iv text) ≡ text

take-append : (iv text : Text) → take (length iv) (iv ++ text) ≡ iv
take-append [] text = refl
take-append (c ∷ iv) text = ap (λ s. c ∷ s) (take-append iv text)

drop-append : (iv text : Text) → drop (length iv) (iv ++ text) ≡ text
drop-append [] text = refl
drop-append (c ∷ iv) text = drop-append iv text

ltb-append : (iv text : Text) → ltb (length (iv ++ text)) (length iv) ≡ false
ltb-append [] text = ground arith
ltb-append (c ∷ iv) text = let rest = ltb-append iv text in ground arith

opened-append :
    (a : Aes) (iv text : Text)
    → a.has_key ≡ true
    → length iv ≡ 16
    → opened a (iv ++ a.encrypt iv text, true) ≡ some (a.decrypt iv (a.encrypt iv text))
unfolding opened
opened-append a iv text key size =
    let size : 16 ≡ length iv = omega (arith, size) in
    rw
      (
        key,
        size,
        ltb-append iv (a.encrypt iv text),
        take-append iv (a.encrypt iv text),
        drop-append iv (a.encrypt iv text),
      )
      refl

is_set-nil : is_set [] ≡ false
unfolding is_set
is_set-nil = refl

is_set-cons : (c : ℕ) (text : Text) → is_set (c ∷ text) ≡ true
unfolding is_set
is_set-cons c text = ground arith

-- Where base64 and the key stream can be undone as documented, the salt is a key, and the random
-- source gives a vector of 16 bytes: a text that is stored by Cipher is what Decipher gives back,
-- if it is not empty; if it is, Decipher of what Cipher stores for it panics.
pub decipher-cipher :
    (a : Aes) (iv text : Text)
    → Inverts a
    → a.has_key ≡ true
    → length iv ≡ 16
    → (stored : Text) × (cipher a (some iv) text ≡ some stored)
      × (decipher a stored ≡ (if is_set text then some text else none))
unfolding cipher decipher opened sealed
decipher-cipher a iv [] inverts key size =
    ([], refl, rw is_set-nil (rw (inverts.decoded_empty) (rw key refl)))
decipher-cipher a iv (c ∷ text) inverts key size =
    let back = opened-append a iv (c ∷ text) key size in
    let same = inverts.decrypted iv (c ∷ text) in
    (
      sealed a (some iv) (c ∷ text),
      rw key refl,
      rw (is_set-cons c text) (ap (opened a) (inverts.decoded _) ∙ (back ∙ ap some same)),
    )
