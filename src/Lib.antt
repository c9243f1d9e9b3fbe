-- ===== src/Lib.antt =====
-- void-control: the control plane that runs executions of many candidates on a runtime (void-box).
--
-- The program. An execution is submitted with a specification (src/orchestration/spec.rs) and a policy
-- (policy.rs). Its iterations are planned by a strategy (strategy.rs) from proposals (variation.rs) and
-- from the messages that candidates sent before (message_box.rs). The candidates queue for slots in a
-- scheduler that all executions share (scheduler.rs), run on a runtime behind a contract
-- (src/contract), are scored and ranked (scoring.rs) or reviewed (strategy.rs), and every step is an
-- event, from which the state of an execution can be replayed (events.rs).
--
-- Base and its children: tests, lists, stable sorting, words, texts (lines, splitting, trimming, the text of
-- a number and its parsing) and ordered maps (`BTreeMap`), that
-- is the parts of Rust's standard library that the program uses, over the native numbers. A u32 or
-- usize sum wraps at 2^32 or 2^64, as in a release build. Where a count is bounded by the length of a
-- list in memory (`usize` counters of messages) it is a plain number.
-- Float: f64 is a type with its operations, a parameter. Only theorems on ranking use laws of it: the
-- numbers, that is all values but NaN, are compared by a total order.
-- Contract: State (src/contract/state.rs), Event (event.rs), Policy (policy.rs), Error (error.rs), Api
-- (api.rs) and Compat (compat.rs, the conversion of the runs that void-box reports); a `Result<(), E>` is an `Option` of the error's text.
-- Runtime.Mock: src/runtime/mock.rs, the runtime in memory. Mock itself starts runs, Mock.Requests stops,
-- inspects and reads them. What the clock says is an argument, one for each time that it is read.
-- Orchestration.Types: the records of src/orchestration/types.rs.
-- Orchestration.Scheduler: src/orchestration/scheduler.rs. A method on `&mut self` takes the scheduler
-- and returns the new one; the helpers are named after the closures and branches that they stand for.
-- Orchestration.Events: events.rs, with the replay of types.rs's snapshot.
-- Orchestration.Policy, Variation, Spec, Scoring, Strategy: the files of these names. A run of iterations,
-- in Strategy.Reduction and Strategy.Rounds, is a list of their outputs, each evaluated and reduced in turn.
-- Orchestration.Json, MessageBox: message_box.rs. MessageBox itself merges and checks what candidates send,
-- MessageBox.Delivery routes and delivers it, and MessageBox.Stats counts it. The texts that serde_json
-- gives to numbers and strings are parameters.
-- Orchestration.Reconcile: reconcile.rs, over the trait of src/orchestration/store.rs as a record of
-- operations, which any implementation can fill.
-- Orchestration.Store: store.rs and store/fs.rs. Store.Files is std::fs with the clock and the environment, as
-- a record of operations on a disk, and Store.Files.Working what std::fs promises on a disk that does not
-- fail, also of a file that is opened for appending; Store.Memory is a disk in memory that keeps the promises. Store.Codec is fs.rs's module serde_json,
-- for the build without serde; elsewhere `serde_json` is a parameter, Store.Records.Texts, with its laws in
-- Store.Records.Faithful, which the module meets. Store.Lines reads a file line by line, Store.Records and
-- Store.Candidates are the text files, Store.Operations puts them on the disk and fills the trait, Store.Logs
-- is the logs of JSON records, with Logs.Crash on a log that was cut short and Logs.Appending on what is
-- appended to it, and Store.Claims is the claim of an execution by a worker. A call that changes the disk takes the disk and
-- returns its result with the new disk; what several workers do is an explicit order of such calls.
-- Orchestration.Service: of service.rs, submission, pause, resume, cancel, policy patches and the checks of an
-- execution, over the file store; what serde_json does with a specification is a parameter.
-- The files called Examples hold tests and concrete instances of theorems.
--
-- Bounds and fuel: `decimal` in Base.Text, the text of a number, takes one digit off in each round, so the
-- number plus one is fuel enough. `claim_execution` calls itself after it has removed a claim; its fuel is the
-- number of rounds, and two are enough where nobody else changes the disk meanwhile (Store.Claims.Taking). All
-- other loops recur on their lists.
--
-- Not modelled: input and output, that is the HTTP bridge (src/bridge.rs), the clients of void-box
-- (the rest of src/runtime), the command line (src/bin), the SDKs and the web UI; of the file store the
-- snapshots of inboxes; of the service (src/orchestration/service.rs) the loop over iterations, which runs
-- candidates on a runtime, with the thread that refreshes a claim; teams, batches and templates, which compile
-- descriptions into specifications; and the reading of void-box's JSON (src/contract/compat_json.rs).
pub mod Base
pub mod Float
pub mod Contract
pub mod Runtime
pub mod Orchestration
