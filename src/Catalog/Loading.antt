-- ===== src/Catalog/Loading.antt =====
-- The loop of the two `load` functions: each template is read, linted, refused under an identifier
-- that is taken, and inserted.
use vergil.Prelude.{
  ◌+◌, String, ◌≡◌, refl, ap, inl, inr, none, some, List, [], ◌∷◌, arith, Bool-cases, Option-cases,
  Result-cases, length, All, str_eq, str_eq_iff, str_eq_refl, Result, ok, err, ◌>>=◌,
}
use mathlib.Core.Path.{subst}
use vergil.Prelude.Maps.{TreeMap, lookup, insert, lookup-insert, length-insert}

-- What a catalog does with one directory.
pub record Loader (E T : Type 0) : Type 0 where
  pub load_template : String → Result E T
  pub lint : T → Result E (Unit {0})
  pub id : T → String
  pub duplicate : String → E

module _ {E T : Type 0} (loader : Loader E T) where
  unfoldable pub add_template : TreeMap T → T → Result E (TreeMap T)
  add_template by_id t = loader.lint t >>= λ _. elim (lookup (loader.id t) by_id) [
    | some _ ↦ err (loader.duplicate (loader.id t))
    | none ↦ ok (insert (loader.id t) t by_id)
  ]

  unfoldable pub load_all : TreeMap T → List String → Result E (TreeMap T)
  unfolding add_template
  load_all by_id [] = ok by_id
  load_all by_id (dir ∷ dirs) =
      loader.load_template dir >>= λ t. add_template by_id t >>= λ next. load_all next dirs

  -- The template of the directory loads and lints, and its identifier finds it.
  abbrev pub IsLoaded : TreeMap T → String → Type 0
  IsLoaded by_id dir =
      (t : T) × (loader.load_template dir ≡ ok t)
      × (loader.lint t ≡ ok tt)
      × (lookup (loader.id t) by_id ≡ some t)

  add_template-ok :
      (by_id next : TreeMap T) (t : T)
      → add_template by_id t ≡ ok next
      → (loader.lint t ≡ ok tt)
        × (lookup (loader.id t) by_id ≡ none)
        × (next ≡ insert (loader.id t) t by_id)
  unfolding add_template
  add_template-ok by_id next t e = elim (Result-cases (loader.lint t)) [
    | inl (u, l) ↦ elim (Option-cases (lookup (loader.id t) by_id)) [
      | inl n ↦ (l, n, cc (rw (l, ◌>>=◌, n) at e))
      | inr (s, f) ↦ cc (rw (l, ◌>>=◌, f) at e)
    ]
    | inr (m, l) ↦ cc (rw (l, ◌>>=◌) at e)
  ]

  load_all-step :
      (by_id loaded : TreeMap T) (dir : String) (dirs : List String)
      → load_all by_id (dir ∷ dirs) ≡ ok loaded
      → (t : T) × (loader.load_template dir ≡ ok t)
        × (loader.lint t ≡ ok tt)
        × (lookup (loader.id t) by_id ≡ none)
        × (load_all (insert (loader.id t) t by_id) dirs ≡ ok loaded)
  unfolding load_all
  load_all-step by_id loaded dir dirs e = elim (Result-cases (loader.load_template dir)) [
    | inl (t, l) ↦ elim (Result-cases (add_template by_id t)) [
      | inl (next, a) ↦
          let (linted, fresh, n) = add_template-ok by_id next t a in
          (t, l, linted, fresh, subst (λ m. load_all m dirs ≡ ok loaded) n (rw (l, ◌>>=◌, a) at e))
      | inr (m, a) ↦ cc (rw (l, ◌>>=◌, a) at e)
    ]
    | inr (m, l) ↦ cc (rw (l, ◌>>=◌) at e)
  ]

  other_key :
      (k j : String) (by_id : TreeMap T) (s t : T)
      → lookup k by_id ≡ some t
      → lookup j by_id ≡ none
      → lookup k (insert j s by_id) ≡ some t
  other_key k j by_id s t h fresh = elim (Bool-cases (str_eq j k)) [
    | inl e ↦ cc (rw ((str_eq_iff j k).0 e, h) at fresh)
    | inr n ↦ rw (lookup-insert k j s by_id, n) h
  ]

  -- What was in the map stays, under the identifier it had.
  load_all-keeps :
      (by_id loaded : TreeMap T) (dirs : List String)
      → load_all by_id dirs ≡ ok loaded
      → (k : String) (t : T) → lookup k by_id ≡ some t
      → lookup k loaded ≡ some t
  unfolding load_all
  load_all-keeps by_id loaded [] e k t h = cc (e, h)
  load_all-keeps by_id loaded (dir ∷ dirs) e k t h =
      let (s, l, linted, fresh, rest) = load_all-step by_id loaded dir dirs e in
      load_all-keeps (insert (loader.id s) s by_id) loaded dirs rest k t
        (other_key k (loader.id s) by_id s t h fresh)

  pub load_all-IsLoaded :
      (by_id loaded : TreeMap T) (dirs : List String)
      → load_all by_id dirs ≡ ok loaded
      → All (IsLoaded loaded) dirs
  load_all-IsLoaded by_id loaded [] e = tt
  load_all-IsLoaded by_id loaded (dir ∷ dirs) e =
      let (s, l, linted, fresh, rest) = load_all-step by_id loaded dir dirs e in
      (
        (
          s,
          l,
          linted,
          load_all-keeps (insert (loader.id s) s by_id) loaded dirs rest (loader.id s) s (
              rw (lookup-insert (loader.id s) (loader.id s) s by_id, str_eq_refl (loader.id s))
                refl),
        ),
        load_all-IsLoaded (insert (loader.id s) s by_id) loaded dirs rest,
      )

  just_loaded : {m n : TreeMap T} {r : Result E (TreeMap T)} → r ≡ ok m → r ≡ ok n → m ≡ n
  just_loaded e f = cc (e, f)

  pub length-load_all :
      (by_id loaded : TreeMap T) (dirs : List String)
      → load_all by_id dirs ≡ ok loaded
      → length loaded ≡ length by_id + length dirs
  unfolding load_all
  length-load_all by_id loaded [] e = omega (arith, ap length (just_loaded refl e))
  length-load_all by_id loaded (dir ∷ dirs) e =
      let (s, l, linted, fresh, rest) = load_all-step by_id loaded dir dirs e in
      omega (
        arith,
        length-load_all (insert (loader.id s) s by_id) loaded dirs rest,
        length-insert (loader.id s) s by_id fresh,
      )
