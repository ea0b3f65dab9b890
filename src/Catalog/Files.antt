-- ===== src/Catalog/Files.antt =====
-- The files under a templates directory: paths, the directory walk and the path check that
-- attack_catalog.rs and catalog.rs share.
use Prim.Native.Nat.{Ordering}
use Prim.Native.String.{compare}
pub mod Inside
pub mod Listed
use vergil.Prelude.{
  ℕ, String, Bool, ◌&&◌, ◌||◌, Option, none, some, List, [], ◌∷◌, if◌then◌else◌, ◌<>◌, is_empty,
  Result, ok, err, ◌>>=◌, map_err,
}
use vergil.Prelude.Chars.{codes, contains, starts_with, ends_with}

-- The file system, with an I/O error by its text: the names that a directory lists, and the files.
pub record Disk : Type 0 where
  pub read_dir : String → Result String (List (Result String String))
  pub is_dir : String → Bool
  pub is_file : String → Bool
  pub read : String → Result String (List ℕ)
  pub read_to_string : String → Result String String

-- `Path::is_absolute`
unfoldable pub is_absolute : String → Bool
is_absolute path = starts_with (codes "/") (codes path)

-- `Path::join`
unfoldable pub join : String → String → String
join dir rel =
    if is_absolute rel
    then rel
    else if is_empty dir || ends_with (codes "/") (codes dir)
    then dir <> rel
    else dir <> "/" <> rel

-- `rel` does not leave the directory it is joined to.
unfoldable pub escapes : String → Bool
escapes rel = contains (codes "..") (codes rel) || is_absolute rel

unfoldable pub resolve_under : String → String → Option String
unfolding escapes
resolve_under dir rel = if escapes rel then none else some (join dir rel)

-- `Vec::sort` on paths: the entries of one directory differ in their last component only, so the
-- order of the components is the order of the texts.
insert_path : String → List String → List String
insert_path p [] = p ∷ []
insert_path p (q ∷ qs) =
    let rest = insert_path p qs in elim (compare p q) [ Ordering.gt ↦ q ∷ rest | _ ↦ p ∷ q ∷ qs ]

unfoldable pub sort_paths : List String → List String
unfolding insert_path
sort_paths [] = []
sort_paths (p ∷ ps) = insert_path p (sort_paths ps)

has_manifest : Disk → String → Bool
has_manifest disk p = disk.is_dir p && disk.is_file (join p "manifest.yaml")

collect_dirs : Disk → String → List (Result String String) → Result String (List String)
unfolding has_manifest
collect_dirs disk root [] = ok []
collect_dirs disk root (err e ∷ entries) = err e
collect_dirs disk root (ok name ∷ entries) = collect_dirs disk root entries >>= λ ps.
    ok (if has_manifest disk (join root name) then join root name ∷ ps else ps)

-- The directories with a manifest, sorted; `io` wraps an I/O error with the root.
unfoldable pub walk_template_dirs :
    {E : Type 0} → (String → String → E) → Disk → String → Result E (List String)
unfolding collect_dirs
walk_template_dirs io disk root = map_err (io root) (disk.read_dir root) >>= λ entries.
    map_err (io root) (collect_dirs disk root entries) >>= λ ps. ok (sort_paths ps)
