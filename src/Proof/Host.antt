-- ===== src/Proof/Host.antt =====
-- What `vergil prove` takes from the machine: the file system, the digest and JSON crates, the
-- solver processes. These are parameters of the model. A path is the list of the pieces joined.
use vergil.Prelude.{ℕ, String, Bool, List, Result}
use vergil.Prelude.Chars.{Text}
use vergil.Solidity.Halmos.{FilePath}
use vergil.Solidity.Solver.{Solver, ProcessEnd}
use vergil.Proof.{ProofArtifact}

abbrev pub Bytes : Type 0
Bytes = List ℕ

pub record Host (F : Type 0) : Type 0 where
  -- `std::fs::read`, `std::fs::read_to_string`, `Path::is_file`
  pub read : FilePath → Result String Bytes
  pub read_text : FilePath → Result Text Text
  pub is_file : FilePath → Bool
  -- the lower-case hexadecimal SHA-256
  pub sha256_hex : Bytes → String
  -- `serde_json::from_slice`
  pub parse_artifact : Bytes → Result String (ProofArtifact F)
  -- a solver's process on a query, and tokio's runtime that waits for it
  pub process : Solver → Text → ProcessEnd
  pub build_runtime : Result Text (Unit {0})
