-- ===== src/Catalog/Files/Inside.antt =====
-- The path check of `resolve_under` against the components of a path
-- (crates/vergil-properties/src/attack_catalog.rs and catalog.rs).
use vergil.Prelude.{
  ℕ, String, ◌≡◌, refl, ◌⊎◌, inl, inr, Bool, true, false, not, ◌&&◌, ◌||◌, some, List, [], ◌∷◌,
  ◌==◌, if◌then◌else◌, Bool-cases, all, ◌<>◌, is_empty,
}
use vergil.Prelude.Chars.{Text, codes, contains, starts_with, ends_with, eqb, eqb→eq}
use vergil.Catalog.Files.{join, is_absolute, escapes, resolve_under}

abbrev pub extend : ℕ → List Text → List Text
extend c [] = (c ∷ []) ∷ []
extend c (p ∷ ps) = (c ∷ p) ∷ ps

-- The components of a path: the texts between slashes.
abbrev pub components : Text → List Text
components [] = [] ∷ []
components (c ∷ s) = if c == b'/' then [] ∷ components s else extend c (components s)

-- No component of the path goes up.
abbrev pub stays : Text → Bool
stays s = all (λ p. not (eqb p (codes ".."))) (components s)

-- `path` is `dir` followed by a relative path that never goes up.
abbrev pub IsUnder : String → String → Type 0
IsUnder dir path =
    (rel : String) × ((path ≡ dir <> rel) ⊎ (path ≡ dir <> "/" <> rel))
    × (is_absolute rel ≡ false)
    × (stays (codes rel) ≡ true)

abbrev pure_components : List Text → Bool
pure_components ps = all (λ p. not (contains (codes "..") p)) ps

self : (b : Bool) → ((b && true) && not (b && true)) ≡ false
self true = refl
self false = refl

-- A component that begins with a dot is one of a text that begins with a dot.
components-cases :
    (s : Text)
    → (p : Text) × (ps : List Text) × (components s ≡ p ∷ ps)
      × ((starts_with (codes ".") p && not (starts_with (codes ".") s)) ≡ false)
unfolding starts_with
components-cases [] = ([], [], refl, refl)
components-cases (d ∷ s) = elim (Bool-cases (d == b'/')) [
  | inl y ↦ ([], components s, rw (y) refl, refl)
  | inr n ↦ let (p, ps, e, _) = components-cases s in (d ∷ p, ps, rw (n, e) refl, self (b'.' == d))
]

joined :
    (dot start_p start_s found pure : Bool)
    → (start_p && not start_s) ≡ false
    → (dot && start_s) ≡ false
    → (not found && pure) ≡ true
    → (not ((dot && start_p) || found) && pure) ≡ true
joined true true false f p a b c = cc a
joined true true true f p a b c = cc b
joined true false s f p a b c = c
joined false q s f p a b c = c

extended :
    (c : ℕ) (s : Text)
    → starts_with (codes "..") (c ∷ s) ≡ false
    → pure_components (components s) ≡ true
    → pure_components (extend c (components s)) ≡ true
unfolding starts_with contains
extended c s h e =
    let (p, ps, f, dots) = components-cases s in
    rw (f) (
      joined (b'.' == c) (starts_with (codes ".") p) (starts_with (codes ".") s)
        (contains (codes "..") p) (pure_components ps) dots h (rw f at e))

either_false : (a b : Bool) → (a || b) ≡ false → (a ≡ false) × (b ≡ false)
either_false false b h = (refl, h)
either_false true b h = cc h

components-pure :
    (s : Text) → contains (codes "..") s ≡ false → pure_components (components s) ≡ true
unfolding contains starts_with
components-pure [] h = refl
components-pure (c ∷ s) h =
    let (a, b) = either_false (starts_with (codes "..") (c ∷ s)) (contains (codes "..") s) h in
    elim (Bool-cases (c == b'/')) [
      | inl y ↦ rw (y) (components-pure s b)
      | inr n ↦ rw (n) (extended c s a (components-pure s b))
    ]

rest_true : (a b : Bool) → (not a && b) ≡ true → b ≡ true
rest_true true b h = cc h
rest_true false b h = h

pure-stays :
    (ps : List Text) → pure_components ps ≡ true → all (λ p. not (eqb p (codes ".."))) ps ≡ true
unfolding contains starts_with
pure-stays [] h = refl
pure-stays (p ∷ ps) h = elim (Bool-cases (eqb p (codes ".."))) [
  | inl y ↦ cc (rw (eqb→eq p (codes "..") y) at h)
  | inr n ↦ rw (n) (pure-stays ps (rest_true (contains (codes "..") p) (pure_components ps) h))
]

-- The path that is joined has a slash or none between its two parts.
separated :
    (b : Bool) (dir rel path : String)
    → some (if b then dir <> rel else dir <> "/" <> rel) ≡ some path
    → (path ≡ dir <> rel) ⊎ (path ≡ dir <> "/" <> rel)
separated true dir rel path e = inl (cc e)
separated false dir rel path e = inr (cc e)

-- A path that the check lets through is the directory followed by a relative path none of whose
-- components goes up.
pub resolve_under-IsUnder :
    (dir rel path : String) → resolve_under dir rel ≡ some path → IsUnder dir path
unfolding resolve_under escapes join
resolve_under-IsUnder dir rel path e = elim (Bool-cases (contains (codes "..") (codes rel))) [
  | inl y ↦ cc (rw y at e)
  | inr n ↦ elim (Bool-cases (is_absolute rel)) [
    | inl y ↦ cc (rw (n, y) at e)
    | inr m ↦ (
      rel,
      separated (is_empty dir || ends_with (codes "/") (codes dir)) dir rel path (rw (n, m) at e),
      m,
      pure-stays (components (codes rel)) (components-pure (codes rel) n),
    )
  ]
]
