-- ===== src/Lib.antt =====
-- The core of ooptdd, a library that reads a store of events back and judges it against a contract.
--
-- A gate rule compiles to a monitor (`compile_check`), an automaton with a three-valued verdict:
-- `sat` and `viol` are settled by a prefix of the stream, `pend` is not. The batch path drives a
-- monitor over the whole stream (`run_monitor`), the live path feeds a bank of monitors one event at
-- a time (`LiveMonitorSet`). The gate judges the events of a run against a spec: it expands the rules,
-- lets a handler check each one, most of them by a monitor, and concludes (`judge_events`) within a
-- shell that captures what it may not compute (`evaluate_events`). The arrival loop reads a store
-- until an evaluator of prefixes settles, for `verify_gate` the gate. Beside them stand a protocol
-- kernel, a pure reducer of events over an immutable snapshot with its receipts, and the hash chain
-- that signs the records of a stream. The mutation extension keeps a cycle of evidence of its own: a
-- reducer that asks for a failing run on a mutated source and a passing one on the restored source.
--
-- Base, Value: Python's lists, numbers, texts, dictionaries and exceptions as data. A value is
--   shaped like JSON. An `int` is exact; a `float` is a dyadic fraction, an infinity or NaN.
-- Builtins: what Python computes by rounding or by printing; a parameter, a record of functions.
-- Match: src/ooptdd/engine/monitor.py (`_matches`, `_resolve_matcher`, `_compare`) and
--   src/ooptdd/engine/gate_primitives.py (`_norm_op`).
-- Ontology: src/ooptdd/domain/ontology.py (`EventType.validate`, and `check_conformance` in
--   Conformance and `ontology_compat` in Compat; Evolution is its proof).
-- Monitor: src/ooptdd/engine/monitor.py. One child for each class (Count, Present, Absent, Duration,
--   Heartbeat, Order, Ratio, Relation for invariants and metamorphic relations, Conforms); Verdicts
--   is the latch of the base class, Stream the `stream_key` of src/ooptdd/engine/gate_primitives.py,
--   Compile is `compile_check`, Live is `LiveMonitorSet`, Entries has the dictionaries that `collapse`
--   returns, and `run_monitor`. A method that mutates `self` is a function
--   from the old monitor to the new one, in `Result` where it may raise.
-- Ltl: proofs on the monitors. Sound is the invariant of each class, Compiled shows it of what a
--   rule compiles to, Anticipation draws the consequences, Live compares the two paths, Foretold the
--   early verdicts of the live path with its dictionaries, Reference compares a monitor with a plain
--   reading of the stream, Conformance with the batch validation, and Entries is the lemma on the
--   dictionaries that Foretold and the proofs of the gate use.
-- Poll: src/ooptdd/engine/verify.py (`poll_until_present`) and src/ooptdd/engine/polling.py. The
--   store, the clock and the sleeper are the script `Store`, functions of the number of reads and
--   the time; time passes in reads and in sleeps. Sorting is the stable sort into stream order. Seen
--   says how the variables of the loop depend on the store, Window is the proof.
-- Gate: src/ooptdd/engine/gate_rules.py (Rules, Label, Charged, Names), gate_kernel.py (Scope,
--   Decorate, Kernel), gate_values.py (Values) and gate.py (Handlers with Aggregate and External,
--   Shell, Tier, Strength), and `_settled_green` of verify.py (Settle), all of src/ooptdd/engine.
--   A handler is a function from the events, the rule and the context; the program compares
--   handlers by identity, the model by the field `origin`. Verdict, Bounds and Rungs are proofs;
--   Evaluated, Kept, Silent, Agreement, Alike, Irrevocable and Reread compare two polls.
-- Verify: src/ooptdd/engine/verify.py (`verify_gate`), over Poll and Gate.
-- Chain: src/ooptdd/domain/model.py (`sign_record`, `signature_status`, `sign_chain`,
--   `verify_chain`). HMAC, SHA-256 and `json.dumps` are parameters, the fields of `Crypto`. Record,
--   Intact and Forgery are proofs.
-- Ouroboros: src/ooptdd/ouroboros/model.py (Model), src/ooptdd/ouroboros/reducer.py (Reducer), and
--   src/ooptdd/ouroboros/receipt.py with `start_successor` (Receipt). The digests are parameters, the
--   fields of `Host`; `digest_json` of a receipt's body, which may raise, is the parameter `Seal`; the
--   evaluator is the record `PolicyEvaluator` of functions that may raise. Outcome, Progress, Replay
--   and History are proofs, on the lemmas of Distinct.
--
-- Cycle: extensions/ooptdd-mutation/src/ooptdd_mutation/ouroboros/model.py (Model), and its
--   reducer.py (Payload for what is read from a payload, Runs for what every transition does and for
--   the evidence of a run, Reducer for the transitions, Step for `step`), with `Digest` of
--   src/ooptdd/ouroboros/identity.py. An `EventRecord` holds its event and the two phases. The
--   parameter `Hashing` holds the digests, JSON and `str.strip`. Invariant is what a snapshot keeps
--   true; Commit, Faults, Evidence, Ran, Moves, Bite and Restoring prove it for each transition, Kept
--   for `step`, Reach, Journal, Replays and Stops draw the consequences. Stored is the journal's form
--   in storage, with the parameter `Codec` for JSON and the digest of an intent.
--
-- Every loop is structural recursion on a list or a value, or on the number of attempts and rounds
-- that are left, so no definition takes fuel.
-- Timestamps and sequence numbers are integers, names of events and operators are texts, and the
-- sentences that report a problem are constructors. `verify_chain` and the
-- cycle are over texts without surrogates.
--
-- The captured events, spec and results of a gate are immutable values here, so `freeze_value` and
-- `thaw_value` have nothing to do. An external probe answers as a function of its arguments.
--
-- Not modelled: `lint_spec`, `load_gate`, `evaluate` and `green_banner` of the gate's shell (an
-- audit of specs, reads of files and stores, and text), the rest of the ports and settings, the
-- backends and probes (I/O), the adapters and the command line, the bytes of receipts, the checks
-- of an identity and a budget of the cycle, the making of its events, its dictionaries but those of
-- the journal, the text behind `invalid_payload`, and the other extensions.
pub mod Base
pub mod Value
pub mod Builtins
pub mod Chain
pub mod Match
pub mod Ontology
pub mod Monitor
pub mod Ltl
pub mod Ouroboros
pub mod Poll
pub mod Gate
pub mod Cycle
pub mod Verify
