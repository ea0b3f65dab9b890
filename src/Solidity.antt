-- ===== src/Solidity.antt =====
-- The verification backends' results and the solvers (crates/vergil-solidity).
pub mod Halmos
pub mod Signatures
pub mod SmtChecker
pub mod Solver
pub mod SmtDump
