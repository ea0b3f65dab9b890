-- ===== src/Prelude/Outcome.antt =====
-- `Result<A, E>`, with the chain of fallible steps that `?` stands for.
use mathlib.Core.Path.{◌≡◌, refl}
use mathlib.Core.Logic.{◌⊎◌, inl, inr}
use mathlib.Core.Option.{Option, none, some}

pub data Result {ℓ κ} (E : Type κ) (A : Type ℓ) : Type (ℓ ⊔ κ) where
  ok : A → Result E A
  err : E → Result E A

infixl 5 ◌>>=◌
abbrev pub ◌>>=◌ {ℓ κ ι} :
    {E : Type κ} {A : Type ℓ} {B : Type ι} → Result E A → (A → Result E B) → Result E B
ok a >>= f = f a
err e >>= f = err e

-- `Option::ok_or`
abbrev pub ok_or {ℓ κ} : {E : Type κ} {A : Type ℓ} → Option A → E → Result E A
ok_or none e = err e
ok_or (some a) e = ok a

abbrev pub map_err {ℓ κ ι} :
    {E : Type κ} {F : Type ι} {A : Type ℓ} → (E → F) → Result E A → Result F A
map_err f (ok a) = ok a
map_err f (err e) = err (f e)

pub Result-cases {ℓ κ} :
    {E : Type κ} {A : Type ℓ} (r : Result E A) → ((a : A) × (r ≡ ok a)) ⊎ ((e : E) × (r ≡ err e))
Result-cases (ok a) = inl (a, refl)
Result-cases (err e) = inr (e, refl)

-- The chain of calls that `?` stands for, with the state of the outside.
abbrev pub and_then :
    {E A B W : Type 0} → Result E A × W → (A → W → Result E B × W) → Result E B × W
and_then (ok a, w) k = k a w
and_then (err e, w) k = (err e, w)

abbrev pub failing : {E A B W : Type 0} → (E → B) → Result E A × W → Result B A × W
failing f (r, w) = (map_err f r, w)

pub and_then-ok :
    {E A B W : Type 0} (p : Result E A × W) (k : A → W → Result E B × W) (b : B)
    → (and_then p k).0 ≡ ok b
    → (a : A) × (p.0 ≡ ok a) × ((k a p.1).0 ≡ ok b)
and_then-ok (ok a, w) k b e = (a, refl, e)
and_then-ok (err m, w) k b e = cc e

-- A chain that succeeded is its second step from the state that the first one left.
pub and_then-run :
    {E A B W : Type 0} (p : Result E A × W) (k : A → W → Result E B × W) (b : B)
    → (and_then p k).0 ≡ ok b
    → (a : A) × (p.0 ≡ ok a) × (and_then p k ≡ k a p.1)
and_then-run (ok a, w) k b e = (a, refl, refl)
and_then-run (err m, w) k b e = cc e

-- A chain of two fallible steps that succeeded.
pub chain-ok {ℓ κ ι} :
    {E : Type κ} {A : Type ℓ} {B : Type ι} (r : Result E A) (k : A → Result E B) (b : B)
    → (r >>= k) ≡ ok b
    → (a : A) × (r ≡ ok a) × (k a ≡ ok b)
chain-ok (ok a) k b e = (a, refl, e)
chain-ok (err m) k b e = cc e

pub ok-injective {ℓ κ} :
    {E : Type κ} {A : Type ℓ} {a b : A} {r : Result E A} → r ≡ ok a → r ≡ ok b → a ≡ b
ok-injective e f = cc (e, f)

pub map_err-ok {ℓ κ ι} :
    {E : Type κ} {F : Type ι} {A : Type ℓ} (f : E → F) (r : Result E A) (a : A)
    → map_err f r ≡ ok a
    → r ≡ ok a
map_err-ok f (ok x) a e = cc e
map_err-ok f (err m) a e = cc e

pub ok_or-ok {ℓ κ} :
    {E : Type κ} {A : Type ℓ} (o : Option A) (e : E) (a : A) → ok_or o e ≡ ok a → o ≡ some a
ok_or-ok none e a h = cc h
ok_or-ok (some x) e a h = cc h
