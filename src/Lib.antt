-- ===== src/Lib.antt =====
-- WitSeal: verification of the witnessed-execution core.
--
-- WitSeal runs a shell command on behalf of an agent and leaves evidence of it. A command becomes a
-- classified intent, policy packs decide on it, a constraint blocks it or an approval is asked, the
-- command runs with its output captured, and every phase is an event in a log whose events are
-- chained by their hashes. The parts and the files that model them:
--
--   Json        values, and `canonicalize` of src/integrity/hash-chain.ts; the language's
--               `JSON.stringify` is in Json/Stringify. A text is
--               a list of UTF-16 code units; an integer is an integer, and another finite number
--               carries the text that JavaScript prints.
--   Schema      the records of schemas/*.ts and the JSON objects that they are.
--   Chain       the rest of src/integrity/hash-chain.ts, and Chain/Tamper for src/integrity/tamper.ts.
--               What a chain is, is defined in Chain/Spec.
--   Log         src/witness/event-log.ts. The state is the content of the log and of its head cache;
--               a method is an action on it that returns or throws, and the chain lock makes each
--               append one step. Log/Head defines what a log on disk is, a torn line included.
--   Lock        src/integrity/lock.ts: the lockfile and its holder in Lock, the loop that waits for it
--               in Lock/Acquire, the shortcut for an ancestor's lock in Lock/Ancestor, the choice of a
--               backend in Lock/Exclusive. Between the steps of the loop other processes act on
--               the directory. Lock/System has the system calls of several processes as steps on one
--               lockfile: the read of the holder and the signal to it are two, and a process may crash
--               or exit.
--   Policy      src/policy/engine.ts and src/policy/enforcement.ts. Policy/Spec reads a match as a
--               proposition.
--   Capture     `BoundedStreamingCapture` of src/execution/mediator.ts and `captureFromString` of
--               src/witness/record.ts.
--   Mediate     the rest of src/execution/mediator.ts: `mediateFile`, with a file system as the state,
--               and `mediateShell` in Mediate/Shell. A write shows at every path that names the same file;
--               which paths do is a parameter. Mediate/Safe says when a path is safe.
--   Emit        src/witness/emit.ts: drafts and the three emissions.
--   Recovery    src/witness/recovery.ts, in the part before and the part under the lock.
--   Risk        src/risk/classifier.ts: the tables in Risk/Tables, the functions in Risk/Classify.
--   Receipts    src/receipts/generate.ts: version 0.1 in Receipts, version 0.2 in Receipts/Versions, and
--               src/receipts/sign-v0.2.ts in Receipts/Signing. A receipt of version 0.2 is the JSON
--               object that is signed.
--   Evidence    src/evidence/package.ts, on the list of events that the log gives.
--   Verify      src/verify/verify.ts: single receipts and the receipts of a package in Verify, packages
--               in Verify/Artifact. Verify/Paired says when a receipt of a package holds.
--   Provenance  src/verify/provenance.ts. Provenance/Shape and Provenance/Statement say which JSON
--               values are envelopes and statements.
--   Approval    src/cli/approval.ts. Approval/Settings reads the environment and the terminal.
--   Exec        `runExec` of src/cli/exec.ts as an action on the log and on the list of commands run.
--   Prelude     the numbers, lists, texts, results and actions that all share.
--
-- Exec calls Recovery, Policy and Emit; Emit and Recovery append through Log; Log seals and checks by
-- Chain, and writes lines by Json and Schema.
--
-- Every loop is a structural recursion, but the two that wait for a lock: these take fuel, one for
-- each round, and are `none` without it; Lock/Waiting says how much is enough, and when none is. Sequence numbers and sizes
-- are natural numbers; JavaScript's are exact up to 2^53, which no log reaches.
--
-- Parameters stand for what is outside the repository: SHA-256, `JSON.parse` and the zod parsers,
-- `RegExp`, UTF-8 decoding, Ed25519, base64, the process table, the clock, flock, the
-- errors of the file system, and in Exec the classifier, the
-- spawned process, the prompt and the environment. The random ids, the clock and the host name of a draft are a `Stamp`.
--
-- Not modelled: shared locks, the text of the approval prompt, argument parsing and
-- printing, the adapters, and the checks that zod makes.
pub mod Prelude
pub mod Json
pub mod Schema
pub mod Chain
pub mod Log
pub mod Policy
pub mod Capture
pub mod Emit
pub mod Recovery
pub mod Exec
pub mod Risk
pub mod Receipts
pub mod Lock
pub mod Verify
pub mod Evidence
pub mod Mediate
pub mod Provenance
pub mod Approval
