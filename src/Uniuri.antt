-- ===== src/Uniuri.antt =====
-- util/uniuri.go: random strings over a set of characters, without modulo bias.
-- The random source is an argument: the blocks of bytes that successive calls of `rand.Read`
-- fill. The loop has no other end than a full string, so it takes as many rounds as there are
-- blocks; `need_more` says that they did not suffice.
pub mod Laws
use tensor.Prelude.{
  ℕ, zero, suc, ◌+◌, ◌-◌, ◌/◌, ◌%◌, Bool, true, false, ◌||◌, List, [], ◌∷◌, ◌++◌, if◌then◌else◌,
  ◌==◌, nat_eq, ltb, length,
}
use tensor.Prelude.Text.{Text, codes}

abbrev pub std_len : ℕ
std_len = 16

abbrev pub uuid_len : ℕ
uuid_len = 20

abbrev pub std_chars : Text
std_chars = codes "ABCDEFGHIJKLMNOPQRSTUVWXYZabcdefghijklmnopqrstuvwxyz0123456789"

-- `bad_charset` is the panic on a set of characters that is too small or too large.
pub data Outcome : Type 0 where
  done : Text → Outcome
  bad_charset need_more : Outcome

-- The largest byte that is used.
unfoldable pub maxrb : ℕ → ℕ
maxrb clen = 255 - 256 % clen

-- `chars[i]`; an index out of range does not occur.
unfoldable pub char_at : Text → ℕ → ℕ
char_at [] i = 0
char_at (c ∷ chars) zero = c
char_at (c ∷ chars) (suc i) = char_at chars i

-- The state of the loop: the characters so far, or the finished string.
pub data Progress : Type 0 where
  filling : Text → Progress
  full : Text → Progress

-- The inner loop over a block; `left` is `length - i`.
unfoldable pub use_bytes : Text → ℕ → Text → List ℕ → Progress
use_bytes chars left b [] = filling b
use_bytes chars zero b (rb ∷ r) = full b
use_bytes chars (suc left) b (rb ∷ r) =
    let skipped = use_bytes chars (suc left) b r in
    let b' = b ++ char_at chars (rb % length chars) ∷ [] in
    let used = use_bytes chars left b' r in
    if ltb (maxrb (length chars)) rb then skipped else if left == 0 then full b' else used

-- The outer loop over the blocks.
unfoldable pub use_blocks : ℕ → Text → Text → List (List ℕ) → Outcome
use_blocks n chars b [] = need_more
use_blocks n chars b (r ∷ blocks) = elim (use_bytes chars (n - length b) b r) [
  | filling b' ↦ use_blocks n chars b' blocks
  | full b' ↦ done b'
]

-- How many bytes each block has.
abbrev pub block_length : ℕ → ℕ
block_length n = n + n / 4

unfoldable pub unique_new_len_chars : ℕ → Text → List (List ℕ) → Outcome
unique_new_len_chars n chars blocks =
    if n == 0
    then done []
    else if ltb (length chars) 2 || ltb 256 (length chars)
    then bad_charset
    else use_blocks n chars [] blocks

unfoldable pub unique_new_len : ℕ → List (List ℕ) → Outcome
unique_new_len n blocks = unique_new_len_chars n std_chars blocks

unfoldable pub unique_new : List (List ℕ) → Outcome
unique_new blocks = unique_new_len_chars std_len std_chars blocks
