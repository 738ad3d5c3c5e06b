-- ===== src/Lib.antt =====
-- Dogwood: the temporal core of the authorization language, dogwood-language/.
--
-- A policy of Dogwood is a Cedar policy whose conditions may hold temporal blocks: past-time formulas over
-- the log of events. Each block is hoisted to a leaf; at a decision the temporal engine evaluates every
-- leaf at the last event of its trace and binds the result in the context that Cedar then reads.
--
-- The parts, with the code that each models:
--   Value, Decimal, Map, Int: `Value`, `dom_eq`, `cedar_decimal_value` of
--     dogwood-language/src/interpreter/value.rs, over ordered maps and the 64-bit integers of Rust.
--   Event: `EventData`, `Event`, `Trace` and the reading of fields by paths, of the same file.
--   Unicode: `str::escape_debug` inside `entity_uid_string`, of the same file.
--   LogText: the decoding and the scanning of text in dogwood-language/src/interpreter/log_parse.rs. Each
--     round of the decoding takes a character at least, so that the length of the text is fuel enough.
--   LogValue: `parse_value`, `unquote` and the scanners under them, of the same file. Its recursion is on the
--     levels left below the limit of 128, so that the limit of the code is the fuel. LogText.Parts is a grammar of texts whose brackets and
--     quotes are closed.
--   LogEntities, LogLine: the entities envelope, and the lines and traces, of the same file.
--   Ast: dogwood-language/src/extension/temporal/ast.rs, with every constructor.
--   Rows, Loop, Resolve, Eval: dogwood-language/src/interpreter/eval.rs. Eval.eval_condition is the Boolean
--     mode, Eval.match_occurrences the relational one; Eval.Steps holds the parts of one operator each.
--   RequestEnv: `request_env` of the same file.
--   Pins: dogwood-language/src/event_schema/pin.rs.
--   Relativize: dogwood-language/src/event_schema/relativize.rs. Relativize.Universal is `universal_pins`,
--     Relativize.Encode what the rewrite builds, Relativize.rewrite the rewrite itself.
--   Lowering: the temporal part of `Base::derive`, `lower_entry` and `merge` of dogwood-language/src/api.rs.
--     Lowering.Together puts relativization, the engine and its partitions together.
--   Check: dogwood-language/src/extension/temporal/check.rs. Its children hold the collection of restricted
--     and of free variables (Check.Restrict, Check.Free) and the evaluation-order rule (Check.Demands),
--     whose two recursions, along a chain and into nested chains, are the two fields of one visit. Check.Places
--     names the conditions that run before a conjunct.
--   LeafMap: dogwood-language/src/leaf_map.rs and the action literals of dogwood-language/src/api.rs.
--   PartitionKey, Engine: dogwood-language/src/engine.rs.
--   Provider: provider arguments and `eval_provider` of dogwood-language/src/api.rs.
--   Cedar, CedarRequest, Authorize: the decision runtime of the same file, from `ingest` down, over the
--     interface Authorize.TemporalEngine, which Authorize.Runtime fills with the in-memory engine, and
--     the response of dogwood-language/src/authorize/mod.rs.
--   Builder: `AuthorizerBuilder::build` of dogwood-language/src/authorize/mod.rs.
--   Decimals: the printing of numbers that partition keys use.
--   Prelude: names of the libraries, tests, strings as lists of scalar values, and two small monads.
--   Examples: a trace of two events, on which definitions are run and theorems applied.
--
-- The conventions. A panic of the code is a result, `panic`, of the type Exec; `None` is `none` of Option.
-- A `BTreeMap` is an association list that its insertion keeps in the order of the keys. The evaluator is
-- structural recursion on the condition; its loops run over the timepoints of the trace and take their
-- body as a function. The printing of numbers takes fuel above the number printed, so that it ends
-- before the fuel does; hexadecimal escapes take eight digits, which any scalar value fits.
-- The 128-bit total of `sum_column` is exact here: no relation that fits in memory leaves that range.
-- A timepoint is a number, and `tp` binds it as an integer without the wrap of a 64-bit cast, which a
-- trace that fits in memory never reaches; the number of rows that `count` casts is taken likewise. The depth
-- of brackets, 32 bits wide in the scanners of a log, is an integer here, which is the same for texts below
-- 2 GB.
-- Parameters: the Unicode tables that `escape_debug` consults; the operations of the `cedar-policy` crate
-- (Cedar) with the policy engine; the scripts of providers (Provider.Scripts) and the caller's resolver.
--
-- Not modelled: source spans; the parser, the macro expander and the typing of policies (the theorems on
-- the evaluator assume an expanded condition, Eval.Expanded); the derivation of event schemas; the lowering
-- of policies to Cedar; the command line. The encodings of `previous` and of the general `since` that
-- relativization builds are modelled, and no theorem here says what they mean.
pub mod Prelude
pub mod Int
pub mod Map
pub mod Decimal
pub mod Value
pub mod LogValue
pub mod LogEntities
pub mod LogLine
pub mod Unicode
pub mod LogText
pub mod Event
pub mod Ast
pub mod Rows
pub mod Loop
pub mod Resolve
pub mod Eval
pub mod RequestEnv
pub mod Pins
pub mod Relativize
pub mod Lowering
pub mod Check
pub mod Decimals
pub mod PartitionKey
pub mod LeafMap
pub mod Provider
pub mod Cedar
pub mod CedarRequest
pub mod Authorize
pub mod Engine
pub mod Builder
pub mod Examples
