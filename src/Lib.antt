-- ===== src/Lib.antt =====
-- ConcIR describes concurrent programs as resources (variables, atomics, mutexes, condition variables,
-- semaphores, channels) and functions of statements. The backend verifies a program against a contract:
-- a front end lowers the syntax tree to a semantic program (src/sem/program.rs), an engine gives it the
-- states and steps of a transition system (src/sem/system.rs), and the explorer (src/explore/mod.rs)
-- searches the states breadth first within bounds and judges the properties of the contract. The
-- reference engine is the small-step interpreter of src/interp; the second engine of src/petri translates
-- the program to a Petri net and fires its transitions.
--
-- The modules, in the order in which they build on each other:
-- - Prelude: Boolean tests, lists, i64 values, byte strings and ordered maps.
-- - Sem.Outcome (src/sem/outcome.rs, src/sem/ids.rs), Sem.Value (src/sem/value.rs, BaseType of
--   src/ast.rs), Sem.Eval (src/sem/eval.rs and the operators of src/expr.rs), Sem.Program
--   (src/sem/program.rs), Sem.Monitor (src/sem/monitor.rs) and Sem.System (src/sem/system.rs). Sem.Results has the lemmas on
--   chains of fallible steps.
-- - Explore.Search is the loop of `verify`, one function per step of it; Explore.Contract holds the
--   resolved contract (src/explore/contract.rs) and Explore.Check the judgement of each property and
--   the report. Explore.Reach says independently what a property asks of the reachable states.
--   Explore.Judgement is what the checks answer where nothing panics, as plain functions. Invariant (of
--   the loop), Positions (searches through the vectors), Backward (the search for the
--   states that can reach a goal) and Verdict (of the properties and the report) hold the proofs.
-- - Interp.State (src/interp/state.rs) is the machine state; the other modules of Interp follow
--   src/interp/exec.rs: Access (checked reads and writes), Threads (return, finish, create), Sync,
--   Channels and Calls (one function per statement), Step (control, and the step of a thread), Resume
--   (blocked threads) and Machine (initial state, successors, predicates). Interp.Ownership holds the
--   proofs: Relation, Respect and Keeping say what a step leaves alone, Sync, Channels, Calls, Threads
--   and Resume go through the operations, Successors through the steps and Safety through the
--   reachable states. Interp.Notify is about whom a notification
--   wakes, and Interp.Completions about the saturated counts of Sem.Monitor.
-- - Petri.Net, Petri.State and Petri.Build (src/petri/net.rs) are the places and transitions, the marking
--   and the translation of a program; the other modules of Petri follow src/petri/exec.rs: Engine
--   (lookups and checked writes), Threads (create, finish), Sync, Channels and Calls (one function per
--   transition's operation), Fire (the firing under a binding) and System (initial state, bindings,
--   successors, predicates). Petri.WellFormed is about the nets that a translation builds, and
--   Petri.Safety about the places of mutexes, semaphores and channels: Relation says what a firing may
--   do to them, Keeping, Sync, Waits, Channels, Buffers, Threads and Calls go through the operations,
--   Fire through the transitions, Reach and Reached through steps and reachable states, and Exclusion
--   holds the results.
-- - Names (src/fqn.rs) joins and splits qualified names and locations; Names.RoundTrip is about both.
-- - Examples applies the theorems to a small system and a small program.
--
-- A fallible function returns Sem.Outcome.Result: a value, a backend error with its code and location,
-- or a panic, which stands for an index or an unwrap that fails. A state is copied and updated, as the
-- program does with `clone`; the steps of a thread are returned as the list of their states, with the
-- boundary events. Numbers of type i64 are integers whose operations are checked as in the source;
-- identifiers and lengths are natural numbers. A `BTreeMap` is a list in the order of its keys.
--
-- Bounds and fuel: the search loop runs on `max_states + 1` turns, which suffices because a turn pops an
-- index below the number of states and stops the loop at `max_states` states.
-- The backward search runs on one turn more than there are states, which suffices because a turn pops a
-- state and no state is pushed twice.
--
-- Parameters: f64 arithmetic and `str::parse::<i64>` are the record Sem.Eval.Host; the key of a state
-- (`render_state` and `render_net`, which print it) is a field of the transition system, and the demand on
-- it is Explore.Reach.KeyLaws: reachable states with equal keys satisfy the same predicates and have the
-- same steps, up to equal keys. Examples.Engine has it for the interpreter on a program, where the
-- statements of the frames are the key.
--
-- Not modelled: the texts of messages, diagnostics, counterexamples (and what their making reads), fingerprints and renderings; the
-- lowering of the syntax tree and its JSON; the parser and the type checker of expressions
-- (src/expr.rs); repair (src/repair), validation (src/validate), code generation, instrumentation,
-- exports and the command lines.
pub mod Prelude
pub mod Sem
pub mod Explore
pub mod Interp
pub mod Petri
pub mod Names
pub mod Examples
