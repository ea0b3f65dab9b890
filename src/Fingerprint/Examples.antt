-- ===== src/Fingerprint/Examples.antt =====
-- Tests of the fingerprint.
use vergil.Prelude.{◌≡◌, refl, none, some, [], ◌∷◌}
use vergil.Prelude.Chars.{Text, codes}
use vergil.Prelude.Chars
use vergil.Fingerprint.Sources
use vergil.Fingerprint.{detect_primitives}
use vergil.Fingerprint.Sources.{Nodes, nil, cons, file, dir, collect_contract_sources}

abbrev tree : Nodes
tree =
    cons (file "b.sol")
      (cons (dir "a" (cons (file "c.sol") (cons (file ".sol") nil))) (cons (file "b.md") nil))

test_sources :
    collect_contract_sources ("p" ∷ []) (some tree) nil
    ≡ ("p" ∷ "src" ∷ "a" ∷ "c.sol" ∷ []) ∷ ("p" ∷ "src" ∷ "b.sol" ∷ []) ∷ []
unfolding collect_contract_sources Sources.walk_sol Sources.is_sol Chars.eqb Sources.compare_paths
test_sources = refl

test_shallow : collect_contract_sources ("p" ∷ []) none tree ≡ ("p" ∷ "b.sol" ∷ []) ∷ []
unfolding collect_contract_sources Sources.is_sol Chars.eqb
test_shallow = refl

test_vault :
    detect_primitives ("ERC20" ∷ "ERC4626" ∷ []) (codes "function swap( reserve0")
    ≡ "amm" ∷ "vault" ∷ []
unfolding detect_primitives Chars.contains Chars.starts_with vergil.Prelude.Maps.insert
test_vault = refl
