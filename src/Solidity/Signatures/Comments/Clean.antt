-- ===== src/Solidity/Signatures/Comments/Clean.antt =====
-- What `strip_comments` leaves (crates/vergil-solidity/src/signatures.rs).
use vergil.Prelude.{
  ℕ, ◌≡◌, refl, inl, inr, Bool, true, false, not, ◌&&◌, ◌||◌, [], ◌∷◌, arith, ◌==◌, Bool-cases,
  ==_iff,
}
use vergil.Prelude.Chars.{Text, codes, contains, starts_with}
use vergil.Solidity.Signatures.Comments.{
  Place, code, line, opening, opened, block, closing, peek, next, is_shown, strip_from,
  strip_comments,
}
use vergil.Solidity.Signatures.Comments.Laws.{IsAscii, push-ascii}

next-shown : (p : Place) (c : ℕ) (s : Text) → is_shown p c s ≡ true → next p c s ≡ code
unfolding is_shown next
next-shown code c s h = ground arith
next-shown line c s h = rw h refl
next-shown opening c s h = cc h
next-shown opened c s h = cc h
next-shown block c s h = cc h
next-shown closing c s h = cc h

-- What follows a shown byte begins no comment with it once it is stripped.
peek-stripped :
    (b : ℕ) (s : Text)
    → IsAscii s
    → peek b'/' s ≡ false
    → peek b s ≡ false
    → peek b (strip_from code s) ≡ false
unfolding peek strip_from is_shown
peek-stripped b [] a h k = refl
peek-stripped b (c ∷ s) (a, _) h k = rw (h, push-ascii c (strip_from (next code c s) s) a) k

quiet : (a b : Bool) → not (true && (a || b)) ≡ true → (a ≡ false) × (b ≡ false)
quiet false false h = (refl, refl)
quiet false true h = cc h
quiet true b h = cc h

stays_shown :
    (p : Place) (c : ℕ) (s : Text)
    → IsAscii s
    → is_shown p c s ≡ true
    → is_shown code c (strip_from code s) ≡ true
unfolding is_shown
stays_shown code c s a h = elim (Bool-cases (c == b'/')) [
  | inl y ↦
      let (slash, star) = quiet (peek b'/' s) (peek b'*' s) (rw y at h) in
      rw (peek-stripped b'/' s a slash slash, peek-stripped b'*' s a slash star, y) refl
  | inr n ↦ rw n refl
]
stays_shown line c s a h = rw ((==_iff c 10).0 h) refl
stays_shown opening c s a h = cc h
stays_shown opened c s a h = cc h
stays_shown block c s a h = cc h
stays_shown closing c s a h = cc h

stripped : (p : Place) (s : Text) → IsAscii s → strip_from code (strip_from p s) ≡ strip_from p s
unfolding strip_from
stripped p [] a = refl
stripped p (c ∷ s) (a, later) = elim (Bool-cases (is_shown p c s)) [
  | inl h ↦
      rw (h, next-shown p c s h, push-ascii c (strip_from code s) a)
        (let still = stays_shown p c s later h in
          rw
            (
              still,
              next-shown code c (strip_from code s) still,
              push-ascii c (strip_from code (strip_from code s)) a,
              stripped code s later,
            )
            refl)
  | inr h ↦ rw (h) (stripped (next p c s) s later)
]

-- A shown byte and the text behind it begin neither comment.
no_opening :
    (c : ℕ) (rest : Text)
    → is_shown code c rest ≡ true
    → (starts_with (codes "//") (c ∷ rest) ≡ false) × (starts_with (codes "/*") (c ∷ rest) ≡ false)
unfolding is_shown starts_with peek
no_opening c [] h = ground arith
no_opening c (d ∷ rest) h = ground arith

bare :
    (p : Place) (s : Text)
    → IsAscii s
    → (contains (codes "//") (strip_from p s) ≡ false)
      × (contains (codes "/*") (strip_from p s) ≡ false)
unfolding strip_from contains starts_with
bare p [] a = (refl, refl)
bare p (c ∷ s) (a, later) = elim (Bool-cases (is_shown p c s)) [
  | inl h ↦
      let still = stays_shown p c s later h in
      let rest = strip_from code s in
      let (slash, star) = bare code s later in
      let (no_line, no_block) = no_opening c rest still in
      rw (h, next-shown p c s h, push-ascii c rest a) (rw (no_line) slash, rw (no_block) star)
  | inr h ↦ rw (h) (bare (next p c s) s later)
]

-- For an ASCII source, neither `//` nor `/*` stands anywhere in what is left after stripping, and
-- stripping again changes nothing.
pub strip_comments-IsBare :
    (source : Text)
    → IsAscii source
    → (contains (codes "//") (strip_comments source) ≡ false)
      × (contains (codes "/*") (strip_comments source) ≡ false)
      × (strip_comments (strip_comments source) ≡ strip_comments source)
unfolding strip_comments
strip_comments-IsBare source a =
    let (no_line, no_block) = bare code source a in (no_line, no_block, stripped code source a)
