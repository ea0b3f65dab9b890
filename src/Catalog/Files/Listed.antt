-- ===== src/Catalog/Files/Listed.antt =====
-- What the directory walk finds (crates/vergil-properties/src/attack_catalog.rs and catalog.rs).
use vergil.Prelude.{
  suc, String, ◌≡◌, refl, ap, sym, ◌∙◌, ◌&&◌, List, [], ◌∷◌, map, select, length, All, arith,
  Result, ok, err, map_err, chain-ok, map_err-ok, ok-injective,
}
use Prim.Native.Nat.{Ordering}
use Prim.Native.String.{compare}
use vergil.Catalog.Files.{
  Disk, join, insert_path, sort_paths, has_manifest, collect_dirs, walk_template_dirs,
}

-- The directories under `root`, in the order in which they are listed, that have a manifest.
abbrev pub with_manifest : Disk → String → List String → List String
with_manifest disk root names =
    select (λ p. disk.is_dir p && disk.is_file (join p "manifest.yaml")) (map (join root) names)

module _ (P : String → Type 0) where
  placed-All :
      (o : Ordering) (p q : String) (qs rest : List String)
      → (All P rest → P p × All P qs)
      → All P (elim o [ Ordering.gt ↦ q ∷ rest | _ ↦ p ∷ q ∷ qs ])
      → P p × All P (q ∷ qs)
  placed-All Ordering.lt p q qs rest k h = h
  placed-All Ordering.eq p q qs rest k h = h
  placed-All Ordering.gt p q qs rest k (y, ys) = let (x, xs) = k ys in (x, (y, xs))

  insert_path-All : (p : String) (ps : List String) → All P (insert_path p ps) → P p × All P ps
  unfolding insert_path
  insert_path-All p [] h = h
  insert_path-All p (q ∷ qs) h =
      placed-All (compare p q) p q qs (insert_path p qs) (insert_path-All p qs) h

  pub sort_paths-All : (ps : List String) → All P (sort_paths ps) → All P ps
  unfolding sort_paths
  sort_paths-All [] h = tt
  sort_paths-All (p ∷ ps) h =
      let (x, xs) = insert_path-All p (sort_paths ps) h in (x, sort_paths-All ps xs)

length-placed :
    (o : Ordering) (p q : String) (qs rest : List String)
    → length rest ≡ suc (length qs)
    → length (elim o as (λ x. List String) [ Ordering.gt ↦ q ∷ rest | _ ↦ p ∷ q ∷ qs ])
      ≡ suc (suc (length qs))
length-placed Ordering.lt p q qs rest e = refl
length-placed Ordering.eq p q qs rest e = refl
length-placed Ordering.gt p q qs rest e = ap suc e

length-insert_path : (p : String) (ps : List String) → length (insert_path p ps) ≡ suc (length ps)
unfolding insert_path
length-insert_path p [] = refl
length-insert_path p (q ∷ qs) =
    length-placed (compare p q) p q qs (insert_path p qs) (length-insert_path p qs)

pub length-sort_paths : (ps : List String) → length (sort_paths ps) ≡ length ps
unfolding sort_paths
length-sort_paths [] = refl
length-sort_paths (p ∷ ps) =
    omega (arith, length-insert_path p (sort_paths ps), length-sort_paths ps)

collect_dirs-listed :
    (disk : Disk) (root : String) (entries : List (Result String String)) (ps : List String)
    → collect_dirs disk root entries ≡ ok ps
    → (names : List String) × (entries ≡ map ok names) × (ps ≡ with_manifest disk root names)
unfolding collect_dirs has_manifest
collect_dirs-listed disk root [] ps e = ([], refl, sym (ok-injective refl e))
collect_dirs-listed disk root (err m ∷ entries) ps e = cc e
collect_dirs-listed disk root (ok name ∷ entries) ps e =
    let (qs, q, f) = chain-ok (collect_dirs disk root entries) _ ps e in
    let (names, listed, found) = collect_dirs-listed disk root entries qs q in
    (name ∷ names, ap (λ es. ok name ∷ es) listed, sym (ok-injective refl (rw found at f)))

-- Every entry is read, and the walk returns those with a manifest, sorted.
pub walk_template_dirs-listed :
    {E : Type 0} (io : String → String → E) (disk : Disk) (root : String) (dirs : List String)
    → walk_template_dirs io disk root ≡ ok dirs
    → (names : List String) × (disk.read_dir root ≡ ok (map ok names))
      × (dirs ≡ sort_paths (with_manifest disk root names))
unfolding walk_template_dirs
walk_template_dirs-listed io disk root dirs e =
    let (entries, r, f) = chain-ok (map_err (io root) (disk.read_dir root)) _ dirs e in
    let (ps, c, g) = chain-ok (map_err (io root) (collect_dirs disk root entries)) _ dirs f in
    let (names, listed, found) =
      collect_dirs-listed disk root entries ps
        (map_err-ok _ (collect_dirs disk root entries) ps c) in
    (
      names,
      map_err-ok _ (disk.read_dir root) entries r ∙ ap ok listed,
      sym (ok-injective refl g) ∙ ap sort_paths found,
    )
