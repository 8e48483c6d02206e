-- ===== src/Lib.antt =====
-- The Mehoy Malloy AI runtime: the parts that decide what a local model runtime may hold, how its
-- requests live and end, and which answers it believes.
--
-- A `Runtime` (crates/mehoy-runtime/src/runtime.rs) keeps a ledger of the models it holds and of the
-- loads in flight, under the limits of resources.rs. Each model is a `LoadedModel` (loader.rs): it
-- admits requests while it serves, gives each one a handle of crates/mehoy-core/src/cancel.rs that the
-- caller, the reading task and the teardown share, checks what the backend answers by
-- crates/mehoy-core/src/inference.rs, records what has been demonstrated in the capabilities of
-- capability.rs, and is torn down once. Streams of text go through the sink and the stream of
-- inference.rs; the bytes that a backend streams are cut into events by
-- crates/mehoy-backend-llama/src/sse.rs, and generate.rs beside it runs the task between the two. What
-- a model file says of itself is read by crates/mehoy-registry/src/gguf.rs, and store.rs beside it
-- keeps the registry of such files. To load a model, loader.rs takes its artifact from the registry,
-- checks that the file has not changed and lets crates/mehoy-backend-llama/src/lib.rs start a backend
-- for it: a worker process that crates/mehoy-core/src/worker/process.rs supervises, with a secret of
-- channel.rs, watched through health.rs until it is ready.
-- The daemon (crates/mehoy-daemon) answers clients (crates/mehoy-cli) in the words of
-- crates/mehoy-protocol; it does not run the models yet.
--
-- Which file models which part:
--   Client        crates/mehoy-cli/src: `raw_get` (lib.rs) and `parse_args` (main.rs), and the theorems
--                 in Commands and Talking
--   Common        native numbers, lists, results, association maps, words of 64 bits, text as bytes
--   Backend       crates/mehoy-backend-llama/src: Channel (channel.rs), Health (health.rs), Embed
--                 (embed.rs), Identity (identity.rs), Launch, Surroundings and Running (lib.rs:
--                 `command_line`, `start`, `stop`), and the theorems in Secrecy, Waiting and
--                 Starting
--   Cancel        cancel.rs: cause, token, handle; one function per method. A shared handle is the
--                 run of the calls (`Op`) of all that hold a clone, in any order
--   Daemon        crates/mehoy-daemon/src: `route` (service.rs) and `serve` (server.rs), and the
--                 theorem in Serving
--   Protocol      crates/mehoy-protocol/src/lib.rs
--   Registry      crates/mehoy-registry/src/artifact.rs; Store (the rows of store.rs), Operations (its
--                 methods over the interface `Database`), Table (what SQLite documents of the
--                 statements, the hypothesis `IsStore`), and the theorems in Registering, Laws,
--                 Integrity and Rows
--   Resources     resources.rs: footprints, limits, `admits`
--   Ledger        runtime.rs: `committed`, `allocate`, `reserve`, `fulfil`, and `release`, which is
--                 the drop of a claim; one section of the mutex is one step (`Event`)
--   Runtime       runtime.rs: `load` and `unload_within`, over the ledger and a loader
--   Capability    capability.rs: evidence and the two functions that write it
--   Compatibility crates/mehoy-backend-llama/src/compatibility.rs: `assess` and `launch_mode`
--   Generate      generate.rs: requests and answers, Streaming (`within`, `read` and its loop),
--                 Execution (`execute`, `start_generation`), and the theorems in Sameness, Endings,
--                 Outcome, Rounds, Payloads, Cuts and Whole
--   Gguf          gguf.rs: the reader, Header (`parse` and the lookups), Layout (how a container
--                 stands as bytes, independent of the reader), and the theorems in Reading, Prefix,
--                 Rules and RoundTrip
--   Inference     inference.rs: Float (f32 as bits), Embedding, Generation, Stream
--   Instance      instance.rs: the states of an instance and its verification
--   Loader        loader.rs: Model (state, `admit`), Requests (`embed`, `generate_text`, `cancel`),
--                 Unloading (`unload_within`, `drain`), Loading (`load_model`, which is
--                 `ModelLoader::load`), and the theorems in Ownership, Stopping, Draining, Admission,
--                 Answers, Checks and Loads
--   Sse           sse.rs: the decoder, and the theorems in Lines, Chunks, Room, Pushes and
--                 RoundTrip
--   Worker        crates/mehoy-core/src/worker: the states of state.rs, the log of log.rs, and Process
--                 (process.rs) with Startup (`wait_ready_with`), Stopping (`terminate`, `shutdown`,
--                 `wait`), and the theorems in Polling, Ending, States and Life
--
-- Identifiers are numbers, the texts of error messages are values that name what they word, and a
-- mutex makes the section that it guards one step. An `async` function is split where it waits, and
-- what happens meanwhile is an argument: the calls of other holders of a handle, the answer of the
-- backend, the items of a channel, the clock. Backends, workers, serde's parsing and what UTF-8 accepts
-- are parameters; SQLite is an interface with the documented effects of the statements that are made of
-- it, which a database of lists meets. The calls on a child process are the interface `Os`, of which
-- nothing is assumed. The body of a response is a list of rounds, one for each wait of
-- the loop that reads it, and the room that a round has for items says when the consumer leaves.
--
-- `read_array` recurses on the levels that are left below the greatest depth of arrays, so that it
-- refuses exactly where the source does. Some loops run on fuel. The loop of
-- `wait_ready_with` sleeps for 50 milliseconds at least in each round, so that as many rounds as 50
-- goes into its deadline, and one more, reach the deadline. `drain` runs a round for each pause of
-- 20 milliseconds; with a clock that a pause moves on by at least as much, as many rounds as 20 goes
-- into the budget, rounded up, and one more give an answer. `take_events` takes a byte in each round at
-- least, and has one round more than the buffer has bytes; `skip_spaces` takes a byte in each round and
-- has as many rounds as the text has bytes; the digits of a u64 are at most the twenty that are taken.
--
-- Not modelled: the opening of the registry's database, the headers of HTTP requests, the options of a
-- child process and the Windows job that holds it, sockets and pipes, what the command line prints, and
-- serialization. A call that waits for a killed process without a deadline is taken to return. What
-- `ModelLoader::load` answers is an argument of the runtime's `load`.
pub mod Backend
pub mod Cancel
pub mod Capability
pub mod Client
pub mod Common
pub mod Compatibility
pub mod Daemon
pub mod Generate
pub mod Gguf
pub mod Inference
pub mod Instance
pub mod Ledger
pub mod Loader
pub mod Protocol
pub mod Registry
pub mod Resources
pub mod Runtime
pub mod Sse
pub mod Worker
