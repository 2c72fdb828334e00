-- ===== src/Uniuri/Laws.antt =====
-- What the random strings are.
use tensor.Prelude.{
  ℕ, zero, suc, ◌+◌, ◌-◌, ◌*◌, ◌/◌, ◌%◌, ◌≤◌, ◌<◌, ◌≡◌, refl, ap, subst, ◌∙◌, not, if◌then◌else◌,
  inl, inr, Bool, true, false, List, [], ◌∷◌, ◌++◌, arith, All, Some, length, ltb, ◌==◌, nat_eq,
  count_if,
}
use native.Mathlib.Nat.{mod-lt}
use tensor.Prelude.Text.{Text}
use tensor.Uniuri.{
  Outcome, done, bad_charset, need_more, maxrb, char_at, Progress, filling, full, use_bytes,
  use_blocks, unique_new_len_chars,
}

-- For 2 to 256 characters, the bytes that are not skipped are as many as the number of characters
-- times a whole number: each character is the remainder of equally many of them.
maxrb_even : (clen : ℕ) → 2 ≤ clen → clen ≤ 256 → maxrb clen + 1 ≡ 256 / clen * clen
unfolding maxrb
maxrb_even clen low high = grind arith

length-append_one : (b : Text) (c : ℕ) → length (b ++ c ∷ []) ≡ suc (length b)
length-append_one [] c = refl
length-append_one (x ∷ b) c = ap suc (length-append_one b c)

-- Every byte of the text is one of the characters.
abbrev pub IsOver : Text → Text → Type 0
IsOver chars b = All (λ c. Some (λ d. d ≡ c) chars) b

char_at-Some : (chars : Text) (i : ℕ) → i < length chars → Some (λ d. d ≡ char_at chars i) chars
unfolding char_at
char_at-Some [] i h = absurd (omega arith)
char_at-Some (c ∷ chars) zero h = inl refl
char_at-Some (c ∷ chars) (suc i) h = inr (char_at-Some chars i (omega arith))

IsOver-append_one :
    (chars b : Text) (c : ℕ) → IsOver chars b → Some (λ d. d ≡ c) chars → IsOver chars (b ++ c ∷ [])
IsOver-append_one chars [] c h s = (s, tt)
IsOver-append_one chars (x ∷ b) c h s = (h.0, IsOver-append_one chars b c h.1 s)

-- The byte is used, not skipped.
abbrev pub accepts : Text → ℕ → Bool
accepts chars rb = not (ltb (maxrb (length chars)) rb)

-- What a block makes of the text: with `t` the length that the text and the used bytes of the block
-- have together, either the text has this length, below `n`, or it is full.
abbrev Good : Text → ℕ → ℕ → Progress → Type 0
Good chars n t (filling b) = (length b ≡ t) × (length b < n) × IsOver chars b
Good chars n t (full b) = (length b ≡ n) × IsOver chars b

Good-if :
    (chars : Text) (n t : ℕ) (test : Bool) (p q : Progress)
    → (test ≡ true → Good chars n t p)
    → (test ≡ false → Good chars n t q)
    → Good chars n t (if test then p else q)
Good-if chars n t true p q f g = f refl
Good-if chars n t false p q f g = g refl

use_bytes-Good :
    (chars : Text) (n left : ℕ) (b : Text) (r : List ℕ)
    → 0 < length chars
    → length b + suc left ≡ n
    → IsOver chars b
    → Good chars n (length b + count_if (accepts chars) r) (use_bytes chars (suc left) b r)
unfolding use_bytes count_if
use_bytes-Good chars n left b [] pos sum over = (omega arith, omega arith, over)
use_bytes-Good chars n zero b (rb ∷ r) pos sum over =
    let c = char_at chars (rb % length chars) in
    let next = IsOver-append_one chars b c over (char_at-Some chars _ (mod-lt _ pos)) in
    Good-if chars n _ (ltb (maxrb (length chars)) rb) _ _
      (λ skip. rw skip (use_bytes-Good chars n zero b r pos sum over))
      (λ used. (omega (arith, length-append_one b c), next))
use_bytes-Good chars n (suc left) b (rb ∷ r) pos sum over =
    let c = char_at chars (rb % length chars) in
    let next = IsOver-append_one chars b c over (char_at-Some chars _ (mod-lt _ pos)) in
    Good-if chars n _ (ltb (maxrb (length chars)) rb) _ _
      (λ skip. rw skip (use_bytes-Good chars n (suc left) b r pos sum over))
      (λ used.
        Good-if chars n _ (suc left == 0) _ _ (λ zero_left. absurd (ground arith))
          (λ more.
            let grown = length-append_one b c in
            rw used (
              subst (λ t. Good chars n t (use_bytes chars (suc left) (b ++ c ∷ []) r)) (omega arith)
                (use_bytes-Good chars n left (b ++ c ∷ []) r pos (omega arith) next))))

-- How many bytes of the blocks are used.
unfoldable pub usable : Text → List (List ℕ) → ℕ
usable chars [] = 0
usable chars (r ∷ blocks) = count_if (accepts chars) r + usable chars blocks

-- A finished string has the length, and its bytes are characters.
abbrev pub Correct : Text → ℕ → Outcome → Type 0
Correct chars n (done s) = (length s ≡ n) × IsOver chars s
Correct chars n bad_charset = ⊥
Correct chars n need_more = Unit {0}

module _ (chars : Text) (n : ℕ) (nonempty : 0 < length chars) where
  block-Good :
      (b : Text) (r : List ℕ)
      → length b < n
      → IsOver chars b
      → Good chars n (length b + count_if (accepts chars) r) (use_bytes chars (n - length b) b r)
  block-Good b r lt over =
      let e : n - length b ≡ suc (n - length b - 1) = omega arith in
      rw e (use_bytes-Good chars n (n - length b - 1) b r nonempty (omega arith) over)

  use_blocks-Correct :
      (b : Text) (blocks : List (List ℕ))
      → length b < n
      → IsOver chars b
      → Correct chars n (use_blocks n chars b blocks)
        × (n ≤ length b + usable chars blocks → (s : Text) × (use_blocks n chars b blocks ≡ done s))
  unfolding use_blocks usable
  use_blocks-Correct b [] lt over = (tt, λ enough. absurd (omega arith))
  use_blocks-Correct b (r ∷ blocks) lt over =
      go (λ b' lt' over'. use_blocks-Correct b' blocks lt' over')
        (use_bytes chars (n - length b) b r) (block-Good b r lt over)
    where
      go :
          ((b' : Text)
            → length b' < n
            → IsOver chars b'
            → Correct chars n (use_blocks n chars b' blocks)
              × (n ≤ length b' + usable chars blocks
                  → (s : Text) × (use_blocks n chars b' blocks ≡ done s)))
          → (p : Progress) → Good chars n (length b + count_if (accepts chars) r) p
          → (let result : Outcome = elim p [
            | filling b' ↦ use_blocks n chars b' blocks
            | full b' ↦ done b'
          ] in
              Correct chars n result
              × (n ≤ length b + usable chars (r ∷ blocks) → (s : Text) × (result ≡ done s)))
      go ih (filling b') (e, lt', over') =
          let (correct, enough) = ih b' lt' over' in (correct, λ h. enough (omega arith))
      go ih (full b') good = (good, λ h. (b', refl))

-- For a set of 2 to 256 characters, and random blocks that hold at least as many bytes that are not
-- skipped as the string is long, the loop ends, and the result is a string of the given length over
-- the characters.
pub unique_new_len_chars-done :
    (n : ℕ) (chars : Text) (blocks : List (List ℕ))
    → 2 ≤ length chars
    → length chars ≤ 256
    → n ≤ usable chars blocks
    → (s : Text) × (unique_new_len_chars n chars blocks ≡ done s) × (length s ≡ n) × IsOver chars s
unfolding unique_new_len_chars
unique_new_len_chars-done zero chars blocks low high enough = ([], refl, refl, tt)
unique_new_len_chars-done (suc n) chars blocks low high enough =
    let same : unique_new_len_chars (suc n) chars blocks ≡ use_blocks (suc n) chars [] blocks =
      ground arith in
    let (correct, finish) =
      use_blocks-Correct chars (suc n) (omega arith) [] blocks (omega arith) tt in
    let (s, e) = finish (omega arith) in let good = rw e at correct in (s, same ∙ e, good.0, good.1)
