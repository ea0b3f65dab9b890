-- ===== src/Classify/Ids.antt =====
-- The identifiers of the primitives (crates/vergil-properties/src/classify.rs).
use vergil.Prelude.{
  String, ◌≡◌, refl, sym, ap, ◌∙◌, ◌↔◌, inl, inr, Bool, true, some, List, [], ◌∷◌, Bool-cases, find,
  str_eq, str_eq_iff,
}
use vergil.Classify.{
  Primitive, id, from_id, all_primitives, token_erc20, token_erc721, token_erc1155, vault,
  lending_market, amm, vesting, airdrop, governance, staking, bridge, oracle,
  access_controlled_generic,
}

first : {A : Type 0} {x y : A} (test : A → Bool) → test y ≡ true → some y ≡ some x → test x ≡ true
first test t e = cc (t, e)

find-true :
    {A : Type 0} (test : A → Bool) (xs : List A) (x : A) → find test xs ≡ some x → test x ≡ true
find-true test [] x e = cc e
find-true test (y ∷ xs) x e = elim (Bool-cases (test y)) [
  | inl t ↦ first test t (rw t at e)
  | inr f ↦ find-true test xs x (rw f at e)
]

from_id-id : (p : Primitive) → from_id (id p) ≡ some p
unfolding from_id id
from_id-id token_erc20 = refl
from_id-id token_erc721 = refl
from_id-id token_erc1155 = refl
from_id-id vault = refl
from_id-id lending_market = refl
from_id-id amm = refl
from_id-id vesting = refl
from_id-id airdrop = refl
from_id-id governance = refl
from_id-id staking = refl
from_id-id bridge = refl
from_id-id oracle = refl
from_id-id access_controlled_generic = refl

-- Identifiers and primitives correspond: a text parses to a primitive exactly when it is the
-- identifier of that primitive.
pub from_id-id_iff : (s : String) (p : Primitive) → (from_id s ≡ some p) ↔ (id p ≡ s)
unfolding from_id
from_id-id_iff s p = (
  λ e. (str_eq_iff (id p) s).0 (find-true (λ q. str_eq (id q) s) all_primitives p e),
  λ e. ap from_id (sym e) ∙ from_id-id p,
)
