-- ===== src/Lib.antt =====
-- A verification library of the model runner: models of parts of its Go code, and theorems about
-- them. Paths are from the repository's root.
--
-- The model runner keeps models in a local store, starts a backend process (a runner) for a model
-- when a request needs it, and proxies requests to it. The parts modelled here are these.
--
-- - Loader: pkg/inference/scheduling/loader.go. A request asks `load` for a runner and gives it
--   back by `release`; `Unload`, `UnloadBackend`, `setRunnerConfig`, the idle timer and the
--   shutdown take runners away. Loader/Keys and Loader/State have the state, Loader/Evict, Load and
--   Release the operations, one function for each stretch of code under the guard. `load` is
--   load_begin, then load_round for each round of its loop, then use_existing inside a round, or
--   load_failed or load_finish after the runner was started, with wait_canceled and wait_signaled
--   after a wait. Loader/Invariant defines the well-formed loaders; Eviction, Shrink, Reserve,
--   Rounds, Loop, Operations, Configure, Unloading, Configuring and Reuse are about single
--   operations; Steps, Loading and Reach about executions, in which any callers interleave such
--   stretches in any order; Protect, InUse and Held about runners in use; Waiting and Reasons about
--   when a load waits; IdleCheck about the timer; Leases about reference counts. A Go map is an association list, and its order, which Go leaves open, is any. Durations are counted
--   in nanoseconds, and time.Sub saturates as in Go. The loop of `load` runs on fuel: one more than
--   there are runners is enough, since a `continue` follows an eviction.
-- - Backend: pkg/inference/backend.go. Forms has the texts of statuses, modes and keep-alive times,
--   RoundTrip that they parse to what they print. Go's parser and printer of durations are
--   parameters.
-- - TailBuffer: pkg/tailbuffer/tailbuffer.go, the ring that keeps the end of a backend's output.
-- - Flags: pkg/inference/runtime_flags.go and runtime_flags_allowlist.go. LlamaCpp and Vllm hold the
--   allowlists, Validate the checks; Safe says what a safe flag is, Accept, Refuse and Lists relate
--   the two.
-- - Responses: pkg/responses/store.go. Store has the operations at given times, History what a
--   history of calls promises, Promise that the store keeps it.
-- - Distribution: the store of models. Reference is pkg/distribution/oci/reference/reference.go,
--   with the parser of the distribution/reference library as a parameter that gives the domain,
--   path, tag and digest of a name; Hash is pkg/distribution/oci/hash.go with the checks of
--   pkg/distribution/internal/store/blobs.go; Index is index.go and LocalStore part of store.go in
--   pkg/distribution/internal/store. A call of the file system succeeds or fails as the parameter
--   Faults says; a failed write of the index leaves the old one, the new one or, when the file is
--   lost, an empty one, as IndexWrite says. HashLaws and Normal are about
--   printing and parsing, Tagging, Blobs and Failure about the store. Texts are lists of bytes.
--   Resume has the blob files of blobs.go with the resumable writes, over the two files of one hash,
--   with SHA256 as a parameter; Verified, Downloads, Attempts and Completion are about them. Write
--   has Write, WriteLightweight and WriteManifest with their cleanups, on disks that are known by
--   the hashes of their files; Rollback, Complete, Kept, Published, Completeness and
--   Mistaken are about them.
--   Range and RangeLaws are about the transport of pkg/distribution/oci/remote/remote.go that asks
--   for ranges and follows at most 10 redirects, which is the fuel of its loop; the transport below
--   it and the parser of URLs are parameters.
-- - Recorder: pkg/metrics/openai_recorder.go. Json is what encoding/json decodes into an interface,
--   Streams the conversion of streamed responses, Records the records of the models and their
--   subscribers as one state, with one function per method. Unmarshal, Marshal, the conversion of a
--   float64 to an int and the resolution of model names are parameters. Joining and Answer are about the
--   conversion; Runs, Window, Settled and Validity are about runs of the methods.
-- - Logs: pkg/logs/merge.go. Merge has MergeLogs over files that are lists of their lines, with the
--   time of a line as a parameter. Its loops run on fuel, one more than the lines that a reader has
--   left. Advance and Times say what a reader has still to give; Lossless and Order are about what
--   is printed.
-- - Common: shared helpers: texts with the functions of Go's `strings`, association lists, lists
--   and integers over the native numbers.
--
-- Not modelled: processes, HTTP, JSON and the file formats around these parts; the start of a
-- runner, of which the loader's model knows only how it ended; logging. Goroutines and locks appear
-- as the order of the steps.
pub mod Common
pub mod TailBuffer
pub mod Loader
pub mod Backend
pub mod Flags
pub mod Responses
pub mod Distribution
pub mod Recorder
pub mod Logs
