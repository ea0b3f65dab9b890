-- ===== src/Solidity/SmtDump/Laws.antt =====
-- Where the digest of a dump and the names of the kept files can meet
-- (crates/vergil-solidity/src/halmos.rs).
use text.Mathlib.TextLemmas.{append_cancel_right}
use vergil.Prelude.{
  ℕ, Option-cases, Result-cases, Result, ok, err, ◌>>=◌, chain-ok, ok-injective, ◌<◌, ◌≡◌, ◌≢◌,
  refl, sym, ap, ◌∙◌, ◌⊎◌, inl, inr, String, some, List, [], ◌∷◌, ◌++◌, ◌<>◌, Within, Within-append,
  any, str_eq, length, length-append, arith, Bool-cases,
}
use vergil.Solidity.SmtDump.{
  Bytes, Entry, DumpFile, Nodes, Files, KeepDirectory, collect, insert, sort, read_all, frame,
  digest_of, hash_smt_dump, kept_name, count_copy, written, keep_all, persist_found,
  persist_smt_files,
}

Within-insert-new :
    (e d : DumpFile) (es : List DumpFile) → (e ≡ d) ⊎ Within e es → Within e (insert d es)
unfolding insert
Within-insert-new e d [] h = h
Within-insert-new e (p, c) ((q, k) ∷ es) h = ground (arith, Within-insert-new e (p, c) es)

sort-Within : (e : DumpFile) (es : List DumpFile) → Within e es → Within e (sort es)
unfolding sort
sort-Within e [] h = absurd h
sort-Within e (d ∷ es) (inl h) = Within-insert-new e d (sort es) (inl h)
sort-Within e (d ∷ es) (inr h) = Within-insert-new e d (sort es) (inr (sort-Within e es h))

-- What can be read stands among what was read.
read_all-Within :
    (p c : Bytes) (fs : List DumpFile) (es : List Entry)
    → read_all fs ≡ ok es
    → Within (p, ok c) fs
    → Within (p, c) es
unfolding read_all
read_all-Within p c [] es e h = absurd h
read_all-Within p c ((q, content) ∷ fs) es e h =
    let (d, r, f) = chain-ok content _ es e in
    let (rest, s, g) = chain-ok (read_all fs) _ es f in
    rw (sym (ok-injective refl g)) (elim h [
      | inl same ↦
          let content_ok : ok c ≡ content = ap (λ (x : DumpFile). x.1) same in
          let path : p ≡ q = ap (λ (x : DumpFile). x.0) same in
          inl (rw (path, ok-injective (sym content_ok) r) refl)
      | inr w ↦ inr (read_all-Within p c fs rest s w)
    ])

length-frame : (e : Entry) (es : List Entry) → Within e es → length e.1 < length (frame es)
unfolding frame
length-frame e [] h = absurd h
length-frame e ((p, c) ∷ es) (inl h) = omega (
  arith,
  length-append p (0 ∷ (c ++ (0 ∷ frame es))),
  length-append c (0 ∷ frame es),
  ap (λ (d : Entry). length d.1) h,
)
length-frame e ((p, c) ∷ es) (inr h) = omega (
  arith,
  length-append p (0 ∷ (c ++ (0 ∷ frame es))),
  length-append c (0 ∷ frame es),
  length-frame e es h,
)

module _ (sha256_hex : Bytes → String) where
  -- The kept file is a copy of a file under the digest of its content.
  abbrev IsCopyOf : String × Bytes → List DumpFile → Type 0
  IsCopyOf f fs =
      (p : Bytes) × (c : Bytes) × Within (p, ok c) fs × (f.0 ≡ kept_name sha256_hex c) × (f.1 ≡ c)

  counted :
      (r : Result String ℕ × Files) (n : ℕ) (kept : Files)
      → count_copy r ≡ (ok n, kept)
      → (m : ℕ) × (r ≡ (ok m, kept))
  unfolding count_copy
  counted (ok m, dest) n kept e = (m, ap (λ (x : Result String ℕ × Files). (ok m, x.1)) e)
  counted (err x, dest) n kept e = cc (ap (λ (y : Result String ℕ × Files). y.0) e)

  keep_all-copy :
      (keep : KeepDirectory) (f : String × Bytes) (fs : List DumpFile) (dest kept : Files) (n : ℕ)
      → keep_all sha256_hex keep fs dest ≡ (ok n, kept)
      → Within f kept
      → Within f dest ⊎ IsCopyOf f fs
  unfolding keep_all written
  keep_all-copy keep f [] dest kept n e h = inl (rw (ap (λ (x : Result String ℕ × Files). x.1) e) h)
  keep_all-copy keep f ((p, err x) ∷ fs) dest kept n e h =
      cc (ap (λ (y : Result String ℕ × Files). y.0) e)
  keep_all-copy keep f ((p, ok c) ∷ fs) dest kept n e h =
      let name = kept_name sha256_hex c in
      elim (Bool-cases (any (λ g. str_eq g.0 name) dest)) [
        | inl old ↦
            let (m, q) =
              counted (keep_all sha256_hex keep fs dest) n kept (rw (keep_all, old) at e) in
            elim (keep_all-copy keep f fs dest kept m q h) [
              | inl w ↦ inl w
              | inr (r, d, w, a, b) ↦ inr (r, d, inr w, a, b)
            ]
        | inr new ↦ elim (Option-cases (keep.write_error name)) [
          | inl fine ↦
              let longer = dest ++ (name, c) ∷ [] in
              let (m, q) =
                counted (keep_all sha256_hex keep fs longer) n kept
                  (rw (keep_all, new, fine, written) at e) in
              elim (keep_all-copy keep f fs longer kept m q h) [
                | inr (r, d, w, a, b) ↦ inr (r, d, inr w, a, b)
                | inl w ↦ elim (Within-append f dest ((name, c) ∷ []) w) [
                  | inl old ↦ inl old
                  | inr (inl x) ↦ inr (
                    p,
                    c,
                    inl refl,
                    ap (λ (g : String × Bytes). g.0) x,
                    ap (λ (g : String × Bytes). g.1) x,
                  )
                  | inr (inr x) ↦ elim x [ ]
                ]
              ]
          | inr ((m, part), broken) ↦
              cc (
                ap (λ (y : Result String ℕ × Files). y.0)
                  (rw (keep_all, new, broken, written) at e))
        ]
      ]

  -- What is hashed: the files of the dump that can be read, in the order of their paths.
  abbrev pub read_dump : Nodes → Result String (List Entry)
  read_dump dump = collect [] dump >>= λ fs. read_all (sort fs)

  digest-frame :
      (fs : List DumpFile) {sha : String}
      → digest_of sha256_hex fs ≡ ok (some sha)
      → (es : List Entry) × (read_all (sort fs) ≡ ok es) × (sha ≡ sha256_hex (frame es))
  unfolding digest_of
  digest-frame [] h = cc h
  digest-frame (f ∷ fs) {sha = sha} h =
      let (es, r, g) = chain-ok (read_all (sort (f ∷ fs))) _ (some sha) h in
      (es, r, cc (ok-injective refl g))

  persist_found-copy :
      (keep : KeepDirectory) (found : Result String (List DumpFile)) (f : String × Bytes)
      (kept : Files) (n : ℕ) (fs : List DumpFile)
      → found ≡ ok fs
      → persist_found sha256_hex keep found [] ≡ (ok n, kept)
      → Within f kept
      → IsCopyOf f fs
  unfolding persist_found
  persist_found-copy keep (err x) f kept n fs q e h = cc q
  persist_found-copy keep (ok gs) f kept n fs q e h = elim (keep_all-copy keep f gs [] kept n e h) [
    | inl none_before ↦ absurd none_before
    | inr copy ↦ rw (ok-injective q refl) copy
  ]

  -- `vergil prove` looks for the file that is named after the digest of the whole dump. Where the
  -- dump can be hashed and its files are copied without an error, a kept file has this name only if
  -- SHA-256 gives one digest for two different inputs: the framed dump, and the content of that file.
  pub kept-hash_smt_dump :
      (keep : KeepDirectory) (dump : Nodes) (kept : Files) (n : ℕ) {sha : String} (body : Bytes)
      → hash_smt_dump sha256_hex dump ≡ ok (some sha)
      → persist_smt_files sha256_hex keep dump [] ≡ (ok n, kept)
      → Within (sha <> ".smt2", body) kept
      → (es : List Entry) × (read_dump dump ≡ ok es)
        × (sha256_hex (frame es) ≡ sha256_hex body)
        × (frame es ≢ body)
  unfolding hash_smt_dump persist_smt_files
  kept-hash_smt_dump keep dump kept n {sha = sha} body h e w =
      let (fs, c, g) = chain-ok (collect [] dump) _ (some sha) h in
      let (es, r, s) = digest-frame fs g in
      elim (Result-cases keep.create_dir_all) [
        | inr (m, no_dir) ↦ cc (ap (λ (y : Result String ℕ × Files). y.0) (rw no_dir at e))
        | inl (u, made) ↦
            let (p, content, within, name, same) =
              persist_found-copy keep (collect [] dump) (sha <> ".smt2", body) kept n fs c
                (rw made at e) w in
            let q = append_cancel_right sha (sha256_hex content) ".smt2" name in
            let stands =
              read_all-Within p content (sort fs) es r (sort-Within (p, ok content) fs within) in
            let longer = length-frame (p, content) es stands in
            (
              es,
              rw (c, ◌>>=◌) r,
              sym s ∙ q ∙ ap sha256_hex (sym same),
              λ x. omega (arith, longer, ap (λ (b : Bytes). length b) (x ∙ same)),
            )
      ]
