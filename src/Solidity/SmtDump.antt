-- ===== src/Solidity/SmtDump.antt =====
-- The SMT-LIB queries that Halmos dumps: the digest over a dump directory and the copies that are
-- kept of its files (crates/vergil-solidity/src/halmos.rs). Names and contents are byte lists, and
-- SHA-256 in lower-case hexadecimal is a parameter. An I/O error is its text.
pub mod Laws
use vergil.Prelude.{
  Result, ok, err, ◌>>=◌, ℕ, suc, ◌+◌, ◌<>◌, String, Bool, true, false, Option, none, some, List,
  [], ◌∷◌, ◌++◌, any, str_eq, if◌then◌else◌, ltb, ◌==◌, not,
}
use vergil.Prelude.Chars.{codes, eqb}

abbrev pub Bytes : Type 0
Bytes = List ℕ

-- A directory as `read_dir` lists it, with what reading each file gives; the listing may fail at the
-- start or at an entry.
mutual
  pub data Node : Type 0 where
    file : Bytes → Result String Bytes → Node
    dir : Bytes → Nodes → Node

  pub data Nodes : Type 0 where
    nil : Nodes
    cons : Node → Nodes → Nodes
    failed : (error : String) → Nodes

-- A path relative to the dump directory, and what reading the file gives.
abbrev pub DumpFile : Type 0
DumpFile = Bytes × Result String Bytes

-- A path relative to the dump directory, and the content.
abbrev pub Entry : Type 0
Entry = Bytes × Bytes

-- The text around the last dot.
unfoldable pub split_last_dot : Bytes → Option (Bytes × Bytes)
split_last_dot [] = none
split_last_dot (c ∷ s) = elim (split_last_dot s) [
  | some (stem, ext) ↦ some (c ∷ stem, ext)
  | none ↦ if c == b'.' then some ([], s) else none
]

-- `path.extension() == Some("smt2")`: a name that only begins with a dot has no extension.
is_smt2 : Bytes → Bool
unfolding split_last_dot eqb
is_smt2 name = elim (split_last_dot name) [
  | none ↦ false
  | some ([], ext) ↦ false
  | some (c ∷ stem, ext) ↦ eqb ext (codes "smt2")
]

entry_if : Bytes → Bytes → Result String Bytes → List DumpFile
unfolding is_smt2
entry_if prefix name content = if is_smt2 name then (prefix ++ name, content) ∷ [] else []

-- `collect_smt_files`
unfoldable mutual
  unfolding entry_if

  pub collect : Bytes → Nodes → Result String (List DumpFile)
  collect prefix nil = ok []
  collect prefix (cons n ns) =
      collect_node prefix n >>= λ es. collect prefix ns >>= λ rest. ok (es ++ rest)
  collect prefix (failed error) = err error

  pub collect_node : Bytes → Node → Result String (List DumpFile)
  collect_node prefix (file name content) = ok (entry_if prefix name content)
  collect_node prefix (dir name ns) = collect (prefix ++ (name ++ codes "/")) ns

-- `str::cmp` on the relative paths
unfoldable pub path_le : Bytes → Bytes → Bool
path_le [] t = true
path_le (a ∷ s) [] = false
path_le (a ∷ s) (b ∷ t) = if ltb a b then true else if ltb b a then false else path_le s t

unfoldable pub insert : DumpFile → List DumpFile → List DumpFile
insert (p, c) [] = (p, c) ∷ []
insert (p, c) ((q, d) ∷ es) =
    if path_le p q then (p, c) ∷ (q, d) ∷ es else (q, d) ∷ insert (p, c) es

-- `entries.sort_by(|a, b| a.0.cmp(&b.0))`
unfoldable pub sort : List DumpFile → List DumpFile
unfolding insert
sort [] = []
sort (e ∷ es) = insert e (sort es)

-- The files are read in order, up to the first that cannot be.
unfoldable pub read_all : List DumpFile → Result String (List Entry)
read_all [] = ok []
read_all ((p, content) ∷ es) = content >>= λ c. read_all es >>= λ rest. ok ((p, c) ∷ rest)

-- The bytes that are hashed: each path and each content, with a zero byte behind.
unfoldable pub frame : List Entry → Bytes
frame [] = []
frame ((p, c) ∷ es) = p ++ (0 ∷ (c ++ (0 ∷ frame es)))

-- The directory for the kept files: whether it can be made, and the writes into it that fail, each
-- with what it leaves of the file.
pub record KeepDirectory : Type 0 where
  pub create_dir_all : Result String (Unit {0})
  pub write_error : String → Option (String × Option Bytes)

abbrev pub Files : Type 0
Files = List (String × Bytes)

count_copy : Result String ℕ × Files → Result String ℕ × Files
count_copy (ok n, dest) = (ok (suc n), dest)
count_copy (err e, dest) = (err e, dest)

left_behind : String → Option Bytes → Files → Files
left_behind name none dest = dest
left_behind name (some part) dest = dest ++ (name, part) ∷ []

written :
    Option (String × Option Bytes)
    → String
    → Bytes
    → Files
    → (Files → Result String ℕ × Files)
    → Result String ℕ × Files
unfolding count_copy left_behind
written none name c dest rest = count_copy (rest (dest ++ (name, c) ∷ []))
written (some (e, part)) name c dest rest = (err e, left_behind name part dest)

module _ (sha256_hex : Bytes → String) where
  digest_of : List DumpFile → Result String (Option String)
  digest_of [] = ok none
  digest_of (e ∷ es) = read_all (sort (e ∷ es)) >>= λ read. ok (some (sha256_hex (frame read)))

  unfoldable pub hash_smt_dump : Nodes → Result String (Option String)
  unfolding digest_of
  hash_smt_dump dump = collect [] dump >>= λ es. digest_of es

  -- The name under which a file with this content is kept.
  abbrev pub kept_name : Bytes → String
  kept_name content = sha256_hex content <> ".smt2"

  -- The loop of `persist_smt_files`: a file that exists is not written again.
  keep_all : KeepDirectory → List DumpFile → Files → Result String ℕ × Files
  unfolding count_copy written
  keep_all keep [] dest = (ok 0, dest)
  keep_all keep ((p, err e) ∷ es) dest = (err e, dest)
  keep_all keep ((p, ok c) ∷ es) dest = elim (any (λ f. str_eq f.0 (kept_name c)) dest) [
    | true ↦ count_copy (keep_all keep es dest)
    | false ↦ written (keep.write_error (kept_name c)) (kept_name c) c dest (keep_all keep es)
  ]

  persist_found : KeepDirectory → Result String (List DumpFile) → Files → Result String ℕ × Files
  unfolding keep_all
  persist_found keep (err e) dest = (err e, dest)
  persist_found keep (ok es) dest = keep_all keep es dest

  -- The number of files copied, and the files of the persist directory afterwards.
  unfoldable pub persist_smt_files : KeepDirectory → Nodes → Files → Result String ℕ × Files
  unfolding persist_found
  persist_smt_files keep dump dest = elim keep.create_dir_all [
    | err e ↦ (err e, dest)
    | ok _ ↦ persist_found keep (collect [] dump) dest
  ]
