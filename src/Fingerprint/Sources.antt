-- ===== src/Fingerprint/Sources.antt =====
-- The contract sources of a project (crates/vergil-core/src/fingerprint.rs). A path is the list of
-- its components; an entry that cannot be read is left out of the tree.
use Prim.Native.Nat.{Ordering}
use Prim.Native.String.{compare}
use vergil.Prelude.{String, Bool, false, Option, none, some, List, [], ◌∷◌, ◌++◌, if◌then◌else◌}
use vergil.Prelude.Chars.{codes, eqb}
use vergil.Solidity.SmtDump.{split_last_dot}
use vergil.Solidity.Halmos.{FilePath, join}

mutual
  pub data Node : Type 0 where
    file : (name : String) → Node
    dir : (name : String) → Nodes → Node

  pub data Nodes : Type 0 where
    nil : Nodes
    cons : Node → Nodes → Nodes

-- `path.extension() == Some("sol")`: a name that only begins with a dot has no extension.
unfoldable pub is_sol : String → Bool
unfolding split_last_dot
is_sol name = elim (split_last_dot (codes name)) [
  | none ↦ false
  | some ([], ext) ↦ false
  | some (c ∷ stem, ext) ↦ eqb ext (codes "sol")
]

push_if : Bool → FilePath → List FilePath
push_if b path = if b then path ∷ [] else []

unfoldable mutual
  unfolding push_if

  pub walk_sol : FilePath → Nodes → List FilePath
  walk_sol at nil = []
  walk_sol at (cons n ns) = walk_node at n ++ walk_sol at ns

  pub walk_node : FilePath → Node → List FilePath
  walk_node at (file name) = push_if (is_sol name) (join at name)
  walk_node at (dir name ns) = walk_sol (join at name) ns

-- The shallow scan takes files only.
shallow : FilePath → Nodes → List FilePath
unfolding push_if
shallow at nil = []
shallow at (cons (file name) ns) = push_if (is_sol name) (join at name) ++ shallow at ns
shallow at (cons (dir name sub) ns) = shallow at ns

-- Paths are ordered by their components.
unfoldable pub compare_paths : FilePath → FilePath → Ordering
compare_paths [] [] = Ordering.eq
compare_paths [] (q ∷ qs) = Ordering.lt
compare_paths (p ∷ ps) [] = Ordering.gt
compare_paths (p ∷ ps) (q ∷ qs) =
    let later = compare_paths ps qs in
    elim (compare p q) [
      | Ordering.lt ↦ Ordering.lt
      | Ordering.eq ↦ later
      | Ordering.gt ↦ Ordering.gt
    ]

insert_path : FilePath → List FilePath → List FilePath
insert_path p [] = p ∷ []
insert_path p (q ∷ qs) =
    let rest = insert_path p qs in
    elim (compare_paths p q) [
      | Ordering.gt ↦ q ∷ rest
      | Ordering.lt ↦ p ∷ q ∷ qs
      | Ordering.eq ↦ p ∷ q ∷ qs
    ]

sort_paths : List FilePath → List FilePath
unfolding insert_path
sort_paths [] = []
sort_paths (p ∷ ps) = insert_path p (sort_paths ps)

dedup_from : FilePath → List FilePath → List FilePath
dedup_from p [] = []
dedup_from p (q ∷ qs) =
    let rest = dedup_from q qs in
    elim (compare_paths p q) [
      | Ordering.eq ↦ rest
      | Ordering.lt ↦ q ∷ rest
      | Ordering.gt ↦ q ∷ rest
    ]

-- `Vec::dedup`: of equal neighbours the first stays.
dedup : List FilePath → List FilePath
unfolding dedup_from
dedup [] = []
dedup (p ∷ ps) = p ∷ dedup_from p ps

found : FilePath → Option Nodes → Nodes → List FilePath
unfolding shallow
found root (some src) listing = walk_sol (join root "src") src
found root none listing = shallow root listing

unfoldable pub collect_contract_sources :
    (root : FilePath) → (src : Option Nodes) → (listing : Nodes) → List FilePath
unfolding found sort_paths dedup
collect_contract_sources root src listing = dedup (sort_paths (found root src listing))
