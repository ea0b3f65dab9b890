-- ===== src/Classify/Order.antt =====
-- Parts of a list of primitives in its order.
use vergil.Prelude.{
  ◌≡◌, refl, ap, ◌⊎◌, inl, inr, Bool, true, false, ◌&&◌, List, [], ◌∷◌, ◌++◌, map, all,
}
use vergil.Classify.{Primitive, PrimitiveMatch}

pub both : (a b : Bool) → (a && b) ≡ true → (a ≡ true) × (b ≡ true)
both true b h = (refl, h)
both false b h = cc h

-- The first list is a part of the second, in its order.
abbrev pub Sublist : List Primitive → List Primitive → Type 0
Sublist [] ys = Unit {0}
Sublist (x ∷ xs) [] = ⊥
Sublist (x ∷ xs) (y ∷ ys) = ((x ≡ y) × Sublist xs ys) ⊎ Sublist (x ∷ xs) ys

Sublist-skip : (xs bs ys : List Primitive) → Sublist xs ys → Sublist xs (bs ++ ys)
Sublist-skip xs [] ys h = h
Sublist-skip [] (b ∷ bs) ys h = tt
Sublist-skip (x ∷ xs) (b ∷ bs) ys h = inr (Sublist-skip (x ∷ xs) bs ys h)

pub Sublist-append :
    (ps bs cs ds : List Primitive) → Sublist ps bs → Sublist cs ds → Sublist (ps ++ cs) (bs ++ ds)
Sublist-append [] bs cs ds h k = Sublist-skip cs bs ds k
Sublist-append (a ∷ ps) [] cs ds h k = elim h [ ]
Sublist-append (a ∷ ps) (b ∷ bs) cs ds (inl (e, h)) k = inl (e, Sublist-append ps bs cs ds h k)
Sublist-append (a ∷ ps) (b ∷ bs) cs ds (inr h) k = inr (Sublist-append (a ∷ ps) bs cs ds h k)

pub Sublist-all :
    (test : Primitive → Bool) (xs ys : List Primitive)
    → Sublist xs ys
    → all test ys ≡ true
    → all test xs ≡ true
Sublist-all test [] ys h k = refl
Sublist-all test (x ∷ xs) [] h k = elim h [ ]
Sublist-all test (x ∷ xs) (y ∷ ys) (inl (e, h)) k =
    let (t, ts) = both (test y) (all test ys) k in rw (e, t) (Sublist-all test xs ys h ts)
Sublist-all test (x ∷ xs) (y ∷ ys) (inr h) k =
    Sublist-all test (x ∷ xs) ys h (both (test y) (all test ys) k).1

abbrev pub primitives : {F : Type 0} → List (PrimitiveMatch F) → List Primitive
primitives ms = map (λ m. m.primitive) ms

pub primitives-append :
    {F : Type 0} (ms ns : List (PrimitiveMatch F))
    → primitives (ms ++ ns) ≡ primitives ms ++ primitives ns
primitives-append [] ns = refl
primitives-append (m ∷ ms) ns = ap (λ ps. m.primitive ∷ ps) (primitives-append ms ns)
