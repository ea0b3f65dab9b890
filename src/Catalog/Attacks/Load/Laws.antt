-- ===== src/Catalog/Attacks/Load/Laws.antt =====
-- What a loaded attack catalog holds (crates/vergil-properties/src/attack_catalog.rs).
use mathlib.Core.Path.{subst}
use vergil.Prelude.{
  ap, map, chain-ok, map_err-ok, ok_or-ok, ok-injective, ℕ, String, ◌≡◌, refl, ◌⊎◌, inl, inr, Bool,
  true, false, Option, none, some, List, [], arith, length, All, Result, ok, ok_or, map_err,
}
use vergil.Catalog.Files.{Disk, resolve_under, walk_template_dirs}
use vergil.Catalog.Files.Listed.{
  with_manifest, sort_paths-All, length-sort_paths, walk_template_dirs-listed,
}
use vergil.Catalog.Files.Inside.{IsUnder, resolve_under-IsUnder}
use vergil.Catalog.Loading.{IsLoaded, load_all, load_all-IsLoaded, length-load_all}
use vergil.Catalog.Attacks.{
  AttackManifest, AttackTemplate, AttackCatalog, AttackEncoding, AttackFixtures, io, len,
}
use vergil.Catalog.Attacks.Load.{
  read_under, read_smtchecker, read_encoding, read_fixtures, assemble, load_template, loader, load,
}

-- A text that a template declares: none was declared, or it was read from a file under the directory.
abbrev pub IsReadUnder : Disk → String → String → Type 0
IsReadUnder disk dir text =
    (text ≡ "") ⊎ ((path : String) × IsUnder dir path × (disk.read_to_string path ≡ ok text))

-- A catalog that loads has exactly one entry for each directory with a manifest: the templates
-- directory lists only names that can be read, each listed directory with a file manifest.yaml loads
-- and lints, its identifier finds its template, and there are as many entries as such directories.
pub load-IsLoaded :
    (disk : Disk) (from_slice : List ℕ → Result String AttackManifest) (root : String)
    (catalog : AttackCatalog)
    → load disk from_slice root ≡ ok catalog
    → (names : List String) × (disk.read_dir root ≡ ok (map ok names))
      × All (IsLoaded (loader disk from_slice) catalog.by_id) (with_manifest disk root names)
      × (len catalog ≡ length (with_manifest disk root names))
unfolding load len
load-IsLoaded disk from_slice root catalog e =
    let (dirs, w, f) = chain-ok (walk_template_dirs io disk root) _ catalog e in
    let (by_id, l, g) = chain-ok (load_all (loader disk from_slice) [] dirs) _ catalog f in
    let (names, listed, sorted) = walk_template_dirs-listed io disk root dirs w in
    let found = with_manifest disk root names in
    let loaded = load_all-IsLoaded (loader disk from_slice) [] by_id dirs l in
    (
      names,
      listed,
      subst (λ c. All (IsLoaded (loader disk from_slice) c.by_id) found) (ok-injective refl g)
          (sort_paths-All (IsLoaded (loader disk from_slice) by_id) found (rw sorted at loaded)),
      subst (λ c. len c ≡ length found) (ok-injective refl g)
          (omega (
            arith,
            length-load_all (loader disk from_slice) [] by_id dirs l,
            ap length sorted,
            length-sort_paths found,
          )),
    )

read_under-IsReadUnder :
    (disk : Disk) (dir id rel text : String) (is_fixture : Bool)
    → read_under disk dir id rel is_fixture ≡ ok text
    → IsReadUnder disk dir text
unfolding read_under
read_under-IsReadUnder disk dir id rel text is_fixture e =
    let (path, o, f) = chain-ok (ok_or (resolve_under dir rel) _) _ text e in
    inr (
      path,
      resolve_under-IsUnder dir rel path (ok_or-ok (resolve_under dir rel) _ path o),
      map_err-ok _ (disk.read_to_string path) text f,
    )

read_smtchecker-IsReadUnder :
    (disk : Disk) (dir id text : String) (declared : Option String)
    → read_smtchecker disk dir id declared ≡ ok text
    → IsReadUnder disk dir text
unfolding read_smtchecker
read_smtchecker-IsReadUnder disk dir id text none e = inl (ok-injective e refl)
read_smtchecker-IsReadUnder disk dir id text (some rel) e =
    read_under-IsReadUnder disk dir id rel text false e

abbrev pub AreReadUnder : Disk → String → String × String → Type 0
AreReadUnder disk dir (s, t) = IsReadUnder disk dir s × IsReadUnder disk dir t

read_encoding-AreReadUnder :
    (disk : Disk) (dir id : String) (declared : Option AttackEncoding) (documented : Bool)
    (texts : String × String)
    → read_encoding disk dir id declared documented ≡ ok texts
    → AreReadUnder disk dir texts
unfolding read_encoding
read_encoding-AreReadUnder disk dir id (some enc) documented texts e =
    let (h, r, f) = chain-ok (read_under disk dir id enc.halmos false) _ texts e in
    let (s, q, g) = chain-ok (read_smtchecker disk dir id enc.smtchecker) _ texts f in
    subst (AreReadUnder disk dir) (ok-injective refl g) (
      read_under-IsReadUnder disk dir id enc.halmos h false r,
      read_smtchecker-IsReadUnder disk dir id s enc.smtchecker q,
    )
read_encoding-AreReadUnder disk dir id none true texts e =
    subst (AreReadUnder disk dir) (ok-injective refl e) (inl refl, inl refl)
read_encoding-AreReadUnder disk dir id none false texts e = cc e

read_fixtures-AreReadUnder :
    (disk : Disk) (dir id : String) (declared : Option AttackFixtures) (documented : Bool)
    (texts : String × String)
    → read_fixtures disk dir id declared documented ≡ ok texts
    → AreReadUnder disk dir texts
unfolding read_fixtures
read_fixtures-AreReadUnder disk dir id (some fx) documented texts e =
    let (v, r, f) = chain-ok (read_under disk dir id fx.vulnerable true) _ texts e in
    let (c, q, g) = chain-ok (read_under disk dir id fx.clean true) _ texts f in
    subst (AreReadUnder disk dir) (ok-injective refl g) (
      read_under-IsReadUnder disk dir id fx.vulnerable v true r,
      read_under-IsReadUnder disk dir id fx.clean c true q,
    )
read_fixtures-AreReadUnder disk dir id none true texts e =
    subst (AreReadUnder disk dir) (ok-injective refl e) (inl refl, inl refl)
read_fixtures-AreReadUnder disk dir id none false texts e = cc e

-- The four texts of a template are under its directory.
abbrev pub IsContained : Disk → String → AttackTemplate → Type 0
IsContained disk dir t =
    AreReadUnder disk dir (t.halmos_source, t.smtchecker_source)
    × AreReadUnder disk dir (t.vulnerable_source, t.clean_source)

assemble-IsContained :
    (disk : Disk) (dir : String) (manifest : AttackManifest) (t : AttackTemplate)
    → assemble disk dir manifest ≡ ok t
    → IsContained disk dir t
unfolding assemble
assemble-IsContained disk dir manifest t e =
    let (a, r, f) = chain-ok (read_encoding disk dir manifest.id manifest.encoding _) _ t e in
    let (b, q, g) = chain-ok (read_fixtures disk dir manifest.id manifest.fixtures _) _ t f in
    subst (IsContained disk dir) (ok-injective refl g) (
      read_encoding-AreReadUnder disk dir manifest.id manifest.encoding _ a r,
      read_fixtures-AreReadUnder disk dir manifest.id manifest.fixtures _ b q,
    )

-- A template that loads has read nothing outside its directory: each of its two encodings and two
-- fixtures is empty or the text of a file whose path is the directory followed by a relative path
-- without a component that goes up.
pub load_template-IsContained :
    (disk : Disk) (from_slice : List ℕ → Result String AttackManifest) (dir : String)
    (t : AttackTemplate)
    → load_template disk from_slice dir ≡ ok t
    → IsContained disk dir t
unfolding load_template
load_template-IsContained disk from_slice dir t e =
    let (bytes, _, f) = chain-ok (map_err _ (disk.read _)) _ t e in
    let (manifest, _, g) = chain-ok (map_err _ (from_slice bytes)) _ t f in
    assemble-IsContained disk dir manifest t g
