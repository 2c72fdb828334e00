-- ===== src/Cipher.antt =====
-- util/cipher.go: how secrets are stored.
pub mod Laws
use tensor.Prelude.{
  Bool, true, false, not, Option, none, some, List, [], ◌∷◌, ◌++◌, ltb, length, take, drop,
  if◌then◌else◌,
}
use tensor.Prelude.Text.{Text}

-- What the code calls of Go's library: base64, with the bytes that were read and whether there was no
-- error; whether the salt is a key of AES; and the key stream of AES in CFB mode for an initialization
-- vector, over a text.
pub record Aes : Type 0 where
  pub encode : Text → Text
  pub decode : Text → Text × Bool
  pub has_key : Bool
  pub encrypt : Text → Text → Text
  pub decrypt : Text → Text → Text

-- The part after the initialization vector, which is what the random source gives, if it gives any.
unfoldable pub sealed : Aes → Option Text → Text → Text
sealed a none text = []
sealed a (some iv) text = a.encode (iv ++ a.encrypt iv text)

-- `Cipher`, with `none` for a panic.
unfoldable pub cipher : Aes → Option Text → Text → Option Text
unfolding sealed
cipher a random [] = some []
cipher a random (c ∷ text) = if not a.has_key then none else some (sealed a random (c ∷ text))

-- `Decipher` of what base64 gives. Too short a text is logged, and then its slices panic.
unfoldable pub opened : Aes → Text × Bool → Option Text
opened a (text, ok) =
    if not ok
    then some text
    else if not a.has_key
    then some text
    else if ltb (length text) 16
    then none
    else some (a.decrypt (take 16 text) (drop 16 text))

unfoldable pub decipher : Aes → Text → Option Text
unfolding opened
decipher a text = opened a (a.decode text)
