-- ===== src/Solidity/Signatures/Comments.antt =====
-- `strip_comments` and `project_index` (crates/vergil-solidity/src/signatures.rs). The loops
-- over byte positions are a walk over the bytes, in the state that says which loop is running.
use vergil.Prelude.{
  ℕ, suc, ◌+◌, ◌*◌, ◌/◌, ◌%◌, ◌≡◌, refl, Bool, true, false, not, ◌&&◌, ◌||◌, Option, none, some, [],
  ◌∷◌, ltb, ◌==◌, if◌then◌else◌,
}
use vergil.Prelude.Chars.{Text, codes, starts_with}
pub mod Laws
pub mod Clean

-- Outside a comment; in a line comment; at the star that opens a block comment and right after it;
-- in a block comment; at the slash that closes it.
pub data Place : Type 0 where
  code : Place
  line : Place
  opening : Place
  opened : Place
  block : Place
  closing : Place

-- The next byte is `b`.
unfoldable pub peek : ℕ → Text → Bool
peek b [] = false
peek b (c ∷ s) = c == b

block_next : ℕ → Text → Place
block_next c s = if (c == b'*') && peek b'/' s then closing else block

-- The place after the byte `c`, where `s` follows.
unfoldable pub next : Place → ℕ → Text → Place
unfolding block_next
next code c s =
    if c == b'/' then if peek b'/' s then line else if peek b'*' s then opening else code else code
next line c s = if c == 10 then code else line
next opening c s = opened
next opened c s = block_next c s
next block c s = block_next c s
next closing c s = code

-- The byte `c` stands outside the comments.
unfoldable pub is_shown : Place → ℕ → Text → Bool
is_shown code c s = not ((c == b'/') && (peek b'/' s || peek b'*' s))
is_shown line c s = c == 10
is_shown opening c s = false
is_shown opened c s = false
is_shown block c s = false
is_shown closing c s = false

-- `out.push(byte as char)`: a byte from 128 on is pushed as the character of that number, which
-- takes two bytes.
unfoldable pub push : ℕ → Text → Text
push b out = if ltb b 128 then b ∷ out else (192 + b / 64) ∷ (128 + b % 64) ∷ out

unfoldable pub strip_from : Place → Text → Text
strip_from p [] = []
strip_from p (c ∷ s) =
    let rest = strip_from (next p c s) s in if is_shown p c s then push c rest else rest

unfoldable pub strip_comments : Text → Text
strip_comments source = strip_from code source

-- How far behind the last byte the position stands when the source ends in a block comment.
overshoot : Place → ℕ
overshoot code = 0
overshoot line = 0
overshoot opening = 0
overshoot opened = 2
overshoot block = 1
overshoot closing = 0

-- The outer loop runs at this byte: it is outside comments, or the line feed behind one.
at_loop_head : Place → ℕ → Bool
at_loop_head code c = true
at_loop_head line c = c == 10
at_loop_head opening c = false
at_loop_head opened c = false
at_loop_head block c = false
at_loop_head closing c = false

unfoldable pub project_from : Place → Text → (stripped_idx i non_comment : ℕ) → Option ℕ
unfolding overshoot at_loop_head
project_from p [] k i n = if n == k then some (i + overshoot p) else none
project_from p (c ∷ s) k i n =
    let later = project_from (next p c s) s k (suc i) (if is_shown p c s then suc n else n) in
    if at_loop_head p c && (n == k) then some i else later

unfoldable pub project_index : Text → ℕ → Option ℕ
project_index original stripped_idx = project_from code original stripped_idx 0 0

strips_both : strip_comments (codes "a // b\nc /* d * / */ e /*/ f") ≡ codes "a \nc  e "
unfolding strip_comments strip_from next is_shown peek push
strips_both = refl

projects_behind : project_index (codes "a/*b*/c") 1 ≡ some 1
unfolding project_index project_from next is_shown peek
projects_behind = refl

projects_past_the_end : project_index (codes "a/*") 1 ≡ some 1
unfolding project_index project_from next is_shown peek
projects_past_the_end = refl
