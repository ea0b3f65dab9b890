-- ===== src/Solidity/Halmos/Run/Laws.antt =====
-- When a Halmos run is verified (crates/vergil-solidity/src/halmos.rs).
use vergil.Prelude.{
  Result, ok, err, ℕ, String, ◌≡◌, refl, ◌⊎◌, inl, inr, Bool, true, false, Option, none, some, ◌++◌,
  if◌then◌else◌,
}
use vergil.Prelude.Chars.{Text}
use vergil.Solidity.Halmos.{
  FilePath, HalmosRun, HalmosResult, verified, counterexample, unknown, timeout, error,
}
use vergil.Solidity.Halmos.Parse.{parse}
use vergil.Solidity.Halmos.Parse.Laws.{is_verified, digest, parse-digest}
use vergil.Solidity.Halmos.Run.{
  ProcessEnd, output, not_spawned, elapsed, Halmos, with_hash, flattened, with_dump, ended, started,
  run,
}
use vergil.Solidity.SmtDump.{Bytes, Nodes, Files, KeepDirectory, hash_smt_dump}

-- The digest, if there is one; an I/O error leaves none.
abbrev pub hashed : Result String (Option String) → Option String
hashed (ok hash) = hash
hashed (err e) = none

-- The digest of the dump directory, where the run asked for one, it could be made and all of it can be
-- read; an I/O error leaves no digest.
abbrev pub dumped : (Bytes → String) → HalmosRun → Halmos → Option String
dumped sha256_hex cfg halmos = elim (if cfg.dump_smt2 then halmos.dump else none) [
  | none ↦ none
  | some dump ↦ hashed (hash_smt_dump sha256_hex dump)
]

module _ (millis : Text → Option ℕ) (sha256_hex : Bytes → String)
    (display : FilePath → String) where
  -- The process printed an output that parses as verified, in a project, and the result has the digest
  -- of the dump.
  abbrev pub IsBacked : HalmosRun → Halmos → HalmosResult → Type 0
  IsBacked cfg halmos result =
      (halmos.has_foundry_toml ≡ true)
      × ((stdout : Text) × (stderr : Text) × (halmos.process cfg ≡ output stdout stderr)
          × (is_verified (parse millis (stdout ++ stderr)) ≡ true)
          × (digest result ≡ dumped sha256_hex cfg halmos))

  -- A result that is not verified keeps no files.
  abbrev pub IsQuiet : Halmos → HalmosResult × Files → Type 0
  IsQuiet halmos (result, kept) = (is_verified result ≡ false) × (kept ≡ halmos.kept)

  -- The result of a dump, from the parsed one.
  Settled : HalmosResult → Option String → Files → HalmosResult × Files → Type 0
  Settled parsed sha kept (result, after) =
      ((is_verified parsed ≡ true) × (digest result ≡ sha))
      ⊎ ((is_verified result ≡ false) × (after ≡ kept))

  with_hash-Settled :
      (cfg : HalmosRun) (keep : KeepDirectory) (dump : Nodes) (parsed : HalmosResult)
      (hash : Option String) (kept : Files)
      → digest parsed ≡ none
      → Settled parsed hash kept
          (with_hash millis sha256_hex display cfg keep dump parsed hash kept)
  unfolding with_hash Settled
  with_hash-Settled cfg keep dump (verified p n ms sha) (some hash) kept h = inl (refl, refl)
  with_hash-Settled cfg keep dump (verified p n ms sha) none kept h = inl (refl, h)
  with_hash-Settled cfg keep dump (counterexample t ms) hash kept h = inr (refl, refl)
  with_hash-Settled cfg keep dump (unknown p r ms) hash kept h = inr (refl, refl)
  with_hash-Settled cfg keep dump (timeout p ms) hash kept h = inr (refl, refl)
  with_hash-Settled cfg keep dump (error s m) hash kept h = inr (refl, refl)

  undumped :
      (parsed : HalmosResult) (kept : Files)
      → digest parsed ≡ none
      → Settled parsed none kept (parsed, kept)
  unfolding Settled
  undumped (verified p n ms sha) kept h = inl (refl, h)
  undumped (counterexample t ms) kept h = inr (refl, refl)
  undumped (unknown p r ms) kept h = inr (refl, refl)
  undumped (timeout p ms) kept h = inr (refl, refl)
  undumped (error s m) kept h = inr (refl, refl)

  hash_of : Option Nodes → Option String
  hash_of none = none
  hash_of (some dump) = hashed (hash_smt_dump sha256_hex dump)

  flattened-hashed :
      (r : Result String (Option String)) → flattened millis sha256_hex display r ≡ hashed r
  unfolding flattened
  flattened-hashed (ok hash) = refl
  flattened-hashed (err e) = refl

  with_dump-Settled :
      (cfg : HalmosRun) (keep : KeepDirectory) (parsed : HalmosResult) (dump : Option Nodes)
      (kept : Files)
      → digest parsed ≡ none
      → Settled parsed
          (hash_of dump)
          kept
          (with_dump millis sha256_hex display cfg keep parsed dump kept)
  unfolding with_dump hash_of
  with_dump-Settled cfg keep parsed none kept h = undumped parsed kept h
  with_dump-Settled cfg keep parsed (some dump) kept h =
      rw (flattened-hashed (hash_smt_dump sha256_hex dump))
        (with_hash-Settled cfg keep dump parsed (hashed (hash_smt_dump sha256_hex dump)) kept h)

  ended-IsBacked :
      (cfg : HalmosRun) (halmos : Halmos) (process : ProcessEnd)
      → halmos.process cfg ≡ process
      → halmos.has_foundry_toml ≡ true
      → IsBacked cfg halmos (ended millis sha256_hex display cfg halmos process).0
        ⊎ IsQuiet halmos (ended millis sha256_hex display cfg halmos process)
  unfolding ended Settled hash_of
  ended-IsBacked cfg halmos (output stdout stderr) e f =
      let dump = if cfg.dump_smt2 then halmos.dump else none in
      let parsed = parse millis (stdout ++ stderr) in
      elim (with_dump-Settled cfg halmos.keep parsed dump halmos.kept
        (parse-digest millis (stdout ++ stderr))) [
          | inl (v, d) ↦ inl (f, (stdout, stderr, e, v, d))
          | inr q ↦ inr q
        ]
  ended-IsBacked cfg halmos (not_spawned io_err) e f = inr (refl, refl)
  ended-IsBacked cfg halmos elapsed e f = inr (refl, refl)

  started-IsBacked :
      (cfg : HalmosRun) (halmos : Halmos) (found : Bool)
      → halmos.has_foundry_toml ≡ found
      → IsBacked cfg halmos (started millis sha256_hex display cfg halmos found).0
        ⊎ IsQuiet halmos (started millis sha256_hex display cfg halmos found)
  unfolding started
  started-IsBacked cfg halmos true e = ended-IsBacked cfg halmos (halmos.process cfg) refl e
  started-IsBacked cfg halmos false e = inr (refl, refl)

  -- A run is verified only if the process ended with an output that parses as verified. Its digest is
  -- then the one of the dump that the run asked for; where none was asked for or could be made, where
  -- it has no query, or where an I/O error occurs in reading it, the run is verified without a digest.
  -- Every run that is not verified leaves the kept files as they were.
  pub run-IsBacked :
      (cfg : HalmosRun) (halmos : Halmos)
      → IsBacked cfg halmos (run millis sha256_hex display cfg halmos).0
        ⊎ IsQuiet halmos (run millis sha256_hex display cfg halmos)
  unfolding run
  run-IsBacked cfg halmos = started-IsBacked cfg halmos halmos.has_foundry_toml refl
