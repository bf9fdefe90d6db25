-- ===== src/Lib.antt =====
-- Termux Stacks: a local orchestrator of multi-service stacks, one Rust crate whose daemon reads
-- manifests, keeps its state in SQLite and runs services through the `proot-distro` command.
--
-- What is modelled, and where:
-- Prelude, Ordered, Text: shared names; `BTreeMap` and `BTreeSet` of Rust's standard library as
--   sorted lists over keys with a lawful comparison (Ordered.Key); `str` as a list of code
--   points, whose order is that of the UTF-8 bytes. `len` counts the UTF-8 bytes.
-- Manifest (src/manifest.rs): Manifest.Error the errors, Manifest.Types the validated manifest,
--   Manifest.Node the YAML tree, Manifest.Literal plain scalars, Manifest.Cursor the reader of
--   YAML events, Manifest.Names names, keys and paths, Manifest.Fields, Manifest.Service,
--   Manifest.Ports and Manifest.Validate the validator, Manifest.Order the start order.
-- Logs (src/logs.rs): the bounded tail of a log file, with its lines as lists of bytes. What the
--   file system says is a record `LogFile`; its `content` is read after its length was seen.
-- Cli (src/cli.rs): `parse` and its helpers; Cli.Grammar the command lines there are.
-- Protocol (src/protocol.rs): requests, responses and frames. A reader is the list of the bytes
--   that are to come.
-- Engine (src/engine.rs): what the daemon asks of the `proot-distro` command and reads from it.
-- Store (src/store.rs): Store.Tables the tables of the state database, Store.Sql the statements,
--   Store.Rows, Store.Phases, Store.Up, Store.Begin, Store.Commit, Store.Down, Store.Start,
--   Store.Backoff, Store.Cold, Store.Recovery and Store.Recover the operations, Store.Views
--   what is only read, Store.History sequences of calls. The proofs go
--   along the statements: Store.Effect has the rules, Store.Kept, Store.View and
--   Store.Statements what a statement keeps, Store.Keeps what each operation keeps, Store.Post,
--   Store.Written, Store.Committed, Store.Judged and Store.Prepared what it leaves.
-- Runtime (src/runtime.rs): Runtime.Restarts what `tick` does with the exit of a child, on the
--   tables of the store; Runtime.Schedule what a scheduling of a restart may end
--   in, Runtime.Rows, Runtime.Steps, Runtime.Bounded and Runtime.Exits the proofs; Runtime.Replay repeated
--   requests.
-- Tests: a sample manifest, tests, and the theorems at concrete inputs.
--
-- How the state corresponds. `Cursor` keeps the source's `events`, `buffered` and `nodes`. The
-- validator's shared maps `dependency_locations` and `claimed_ports` are handed from service to
-- service (`Shared`). A `?` of the source is a step of a `do` block over `Result`, an early
-- `return Err(..)` under a test is `deny`. An error message is kept as its format string with its
-- arguments, not rendered. `Result` has a third case, `fault`, for a panic of the source (an
-- index, an `expect`, an overflow, a debug assertion) and for fuel that has run out.
--
-- A table of the store is a map from its primary key to the other columns; the columns with a
-- fixed vocabulary are data types. An operation is an `Action`: it reads and changes the tables or
-- ends in an error, and `transaction` then leaves the tables as they were. The statements have the
-- guards of their WHERE clauses and return the number of changed rows where the source asks for
-- it; an INSERT fails where a primary key, a unique index or a reference forbids it. Times and
-- counters, which are 64-bit in the source, are natural numbers. Database errors of the disk are
-- left out.
--
-- Fuel. `Cursor::node` and its loops call one another; `read_document` gives them twice the
-- number of events and one, since each call for a value takes an event. The `while` loop of
-- `topological_order` has one round for each service and one more.
--
-- Parameters. The YAML parser (crate saphyr-parser) is the argument `parser` of `parse`: the
-- events and places that it hands out. `ScalarStyle` tells the plain style from the others.
--
-- The clock is the argument `clock` of each operation of the store, none where it cannot be read,
-- and `service_config_json` the argument `config_json` of `begin_up`. The runtime's own reading of
-- the clock is `read_now`; the time since a child was started is `elapsed`, in whole seconds; the
-- engine's list of sessions is `sessions`, and serde_json's parser of a configuration `is_json`.
--
-- JSON (crate serde_json) is the arguments `encode` and `decode` of `write_frame` and
-- `read_json_line`, and `String::from_utf8_lossy` the argument `decode` of `tail`. What
-- `proot-distro` does is the argument `start` of `probe`, `install` and `sessions`: the output for
-- each argument list, if it can be started.
--
-- Not modelled: reading the manifest's file (`load`), sending requests and printing, starting and
-- killing processes, the daemon, and of the runtime all but exits, the scheduling of
-- restarts and repeated requests; of the store, opening the file and the migration
-- from version 2.
pub mod Prelude
pub mod Ordered
pub mod Text
pub mod Manifest
pub mod Logs
pub mod Cli
pub mod Protocol
pub mod Engine
pub mod Store
pub mod Runtime
mod Tests
