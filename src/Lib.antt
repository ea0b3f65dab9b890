-- ===== src/Lib.antt =====
-- Vergil: the parts of the tool that decide what is checked and what is reported as verified.
--
-- Vergil proposes properties of a Solidity contract with language models, filters them, sends them
-- to two verifiers, repairs or refines on a counterexample, writes a proof artifact, and checks
-- that artifact again without any model. The parts and the files that model them:
--
-- - Prelude.antt: the numbers, lists, options, results and texts that all parts share.
--   Prelude/Chars.antt has texts as lists of code points, with the `str` methods that the code
--   uses; Prelude/Floats.antt has the operations on `f32` and `f64` as a record without laws, so
--   that the theorems hold for any rounding.
-- - Solidity/Halmos.antt and Solidity/SmtChecker.antt (crates/vergil-solidity/src/halmos.rs and
--   smtchecker.rs): the two verifiers, their results and configuration, with a module Parse for the
--   output and a module Run for the subprocess, whose end is data. Solidity/Halmos/Lines and Inputs
--   have what the parser reads from single lines and from a counterexample.
-- - Solidity/SmtDump.antt (halmos.rs): the walk over a directory of dumped queries, its digest
--   `hash_smt_dump`, and the copies that `persist_smt_files` keeps.
-- - Solidity/Signatures.antt (crates/vergil-solidity/src/signatures.rs): the extractor of function
--   signatures, bodies and constructor parameters from a source, and the interfaces that the
--   signatures show. A source is the list of its bytes; a position is the text that follows it.
-- - Catalog.antt (crates/vergil-properties/src/catalog.rs and attack_catalog.rs): Catalog/Properties
--   and Catalog/Attacks have the two catalogs of templates, Catalog/Files and Catalog/Loading what
--   their loading shares, Catalog/Attacks/Activation the choice of attacks for a contract.
-- - Classify.antt (crates/vergil-properties/src/classify.rs): the classifiers of primitives, one
--   function each, over the textual cues of Classify/Cues.antt, and `classify`, which runs them.
-- - Solidity/Solver.antt (crates/vergil-solidity/src/solver.rs): solver names, the end of a solver
--   process and the parser of its output.
-- - Portfolio.antt and Portfolio/Race.antt (crates/vergil-core/src/portfolio.rs): the conversion of
--   verifier results to outcomes, and `dispatch`. The two tasks are what they yield when joined;
--   the `Race` record has the local variables of `dispatch`; each poll of the schedule says which
--   task has finished, and the arms of the biased `select!` are tried in their order.
-- - Synthesis.antt and Critique.antt (crates/vergil-core/src/synthesis.rs and critique.rs): the data
--   of candidates, and the critic's filter, failed calls and counts.
-- - Cegis.antt, Cegis/Round.antt and Cegis/Run.antt (crates/vergil-core/src/cegis.rs, with data of
--   diagnosis.rs, refinement.rs and telemetry.rs): the loop. `Local` has the local variables of a
--   round; `Outside` has every call that leaves the loop, and each call takes and returns the state
--   of the outside, so that providers and verifiers may answer differently each time.
-- - Confirm.antt and Confirm/Gate.antt (crates/vergil-core/src/confirm.rs): the confirmation gate,
--   its state file and its three modes. The modes differ only in how they come to one decision, so
--   their three loops are one function of the mode.
-- - Report.antt and Report/Sections.antt (crates/vergil-cli/src/output/verdict.rs): the three-state
--   headline and the Markdown report; each push to the output is a part of one text.
-- - Proof.antt, Proof/Host.antt and Proof/Verify.antt (crates/vergil-proof/src/schema.rs and
--   verify.rs): the proof artifact, its validation and the recheck of its source digests.
-- - Proof/Prove.antt (crates/vergil-cli/src/commands/prove.rs): the command that checks an artifact
--   again, down to its exit code.
-- - Mutation.antt (crates/vergil-mutation/src/scorer.rs): the scorer that overwrites the contract with
--   each mutant and restores it, and the coverage.
-- - Fingerprint.antt (crates/vergil-core/src/fingerprint.rs): what a run finds out about a project
--   before any model is asked; Fingerprint/Sources.antt has the search for its sources.
-- - Rendering.antt (crates/vergil-properties/src/template_render.rs and
--   crates/vergil-llm/src/prompts.rs): the loop that substitutes `{{ key }}` markers, on the length
--   of the template as fuel, since each marker takes four characters.
-- - Retry.antt (crates/vergil-llm/src/retry.rs): the retry loop around a provider's call.
-- - Service.antt (crates/vergil-service/src/store.rs and job.rs): the in-memory store of jobs and
--   results, and the stores that requests lead to; Service/Auth.antt and Service/Handlers.antt
--   (crates/vergil-service/src/auth.rs and handlers.rs): the token of a request, and the handlers of
--   submission and of the reads, over a record of the store's operations.
--
-- The portfolio is what the verifier dispatch of the loop calls; the critic's filter is a step of
-- the loop; its mutation gate asks for the coverage of the mutation scorer; the digests that the
-- portfolio records are what the prove command looks for; the retry loop stands inside the calls of
-- providers. The interfaces that the signature extractor detects are the first cue of the token
-- classifier, and the primitives that the classifier finds are facts that activate attacks.
--
-- Errors are values of `Result`; where a call also changes the outside, the state comes back beside
-- the error. Loops are by recursion on their list. The portfolio's loop recurses on the schedule and
-- returns none when the schedule ends too early; two polls that find both tasks finished are enough.
-- The loop over rounds recurses on fuel, one more than max_iterations: each iteration counts up to
-- this bound and the last step finds it reached; without fuel the model returns none, and a theorem
-- shows that this never happens. The loops of the signature extractor recurse on fuel, the length of the text,
-- which a pass always shortens. Token counts saturate at 2^32 - 1 and their sum wraps at 2^32; other counts
-- are natural numbers without a bound.
--
-- Parameters of the model are: processes, the file system, JSON, SHA-256, the model providers, the
-- verifier tasks, the mutation gate, the clock, the telemetry sink and the user. Nothing is assumed
-- of them but what a theorem states. The panic of a slice inside a character of more than one byte is
-- not modelled. Not modelled are the texts of the prompts, the
-- retrieval from the property catalog, the structural miners, the printing of commands, the
-- generation of mutants, and of the service the listing of jobs, the metrics and the HTTP layer.
pub mod Prelude
pub mod Solidity
pub mod Portfolio
pub mod Proof
pub mod Catalog
pub mod Classify
pub mod Synthesis
pub mod Critique
pub mod Cegis
pub mod Confirm
pub mod Report
pub mod Mutation
pub mod Fingerprint
pub mod Rendering
pub mod Retry
pub mod Service
