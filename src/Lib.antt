-- ===== src/Lib.antt =====
-- HyperL2: a pipeline that certifies blocks of transfers. An ingress makes a job for each block, a
-- sequencer deals its transfers to lanes, an aggregator gathers the lanes of a block and commits to
-- them, a proof replayer adds the proof of the block, and a certification node checks the proof and
-- the payload and applies the transfers to its balances. The parts hand over through bounded lock-free
-- queues in one process (internal/pipeline/runner.go), or by HTTP between processes (cmd).
--
-- Base          names of the library, and the helpers that all parts share: lists over the native
--               numbers, integers, Go maps, bytes and hexadecimal text, bitwise operations
-- Frame         internal/frame/frame.go: the codec of transfers (Frame/Tx) and frames (Frame/Batch)
-- Ring          internal/queue/ring.go: `Enqueue` and `Dequeue`, one access to shared memory at a
--               time (`step`); Ring/Alone, Ring/Kept and Ring/Refine are about uninterrupted calls,
--               against the queue of Ring/Queue; Ring/New is about `NewRing`
--   Threads     goroutines that share a ring, under any schedule (`exec`); View and Invariant say what
--               holds between two steps, Slots to Begin that it goes on holding, and Safety, Rest,
--               Refusals and Progress what the callers have of it
-- Metrics       internal/metrics/registry.go
-- Config        internal/config/config.go
-- Pipeline      internal/pipeline, by parts:
--   Types       types.go: messages and commitments
--   Proof       proof.go: the proof book
--   L1          l1.go: `SubmitCertifiedBlock` (`submit_certified_block`), `applyTxs` (`apply_txs`)
--   Sequencer   runner.go: one round of `runSequencer` (`batches_of`)
--   Aggregator  runner.go: one round of `runAggregator` (`receive`)
--   Replayer    runner.go: one round of `runProofReplayer` (`replay`)
--   Ingress     runner.go: `GenerateSyntheticTxs` and a phase; datasets.go: the loop of a phase
--   EndToEnd    the rounds one after the other, from a job to the node
--   Runner      runner.go: the goroutines of `Run` at the points of their loops, under any schedule
--               (`run_line`); Outputs, Kept and Sends say what holds between two acts, Order what
--               reaches the node
--   Report      runner.go: `buildReport`
-- Services      the handlers and loops of cmd/l2-ingress, cmd/l2-aggregator, cmd/l2-sequencer,
--               cmd/proof-replayer and cmd/l1-cert-node, and the envelopes of internal/pipeline/api.go;
--               Services/Wire is about what they hand to each other, Services/Ingress/Stream about what
--               the ingress writes to the sequencer, Services/Aggregator/Repeat about a repeated post
-- Dashboard     cmd/kaia-proofctl/dashboard.go: the state of the dashboard (State, Receipts), the workflow
--               that makes or reads a bundle (Workflow), and the submission that reports to it
-- Bundle        cmd/kaia-proofctl: the proof bundle, its conversion and `mergeBundles`
-- Chain         cmd/kaia-proofctl/main.go: waiting for a receipt (Wait), sending a transaction (Send,
--               Sent), keys and addresses (Account, NewSender) and lists of values (Text)
-- Commands      cmd/kaia-proofctl/main.go: the commands that send bursts, with the calls that they make of
--               their clients (`Run`): making senders and jobs (Senders, Jobs), `submit-multisender-burst`
--               (Multi), `submit-burst` and `fund-accounts` (Burst); Monitor, Clients, Release and OneClient
--               are about open clients, Sends to Nonces about what is sent, Success about the report;
--               `init-lane-heads` is in Lanes
-- Tests         the theorems at concrete inputs
--
-- A uint64, uint32 or uint16 is a natural number whose wrap-around is written out; a signed integer is
-- an integer, and an int64 balance its 64-bit word. A Go map is a list of pairs without repeated keys,
-- a byte string a list of numbers, a time its nanoseconds. A method under a mutex is one function on
-- the state. What is shared (the registry) is passed in and out.
--
-- SHA-256, float64, the formats of times and quotients, and the big integers of a text are parameters;
-- where a theorem needs something of SHA-256 (a digest has bytes, 32 of them) it is a hypothesis.
--
-- The loop of the ring runs on fuel (`run_alone`): 6 for `Enqueue` and 7 for `Dequeue`, the number of
-- accesses to shared memory that an uninterrupted call makes. `read_stream` has one unit of fuel for
-- each group of twelve bytes and one more; `wait_for_receipt` has one for each tick. All other loops
-- are recursions on lists or counts.
--
-- The theorems on the ring are bounded by the wrap of the positions: schedules are shorter than 2 ^ 63
-- less the capacity, and atomic accesses are in one order for all goroutines, as Go guarantees.
--
-- A goroutine of `Run` calls a queue in one act, which takes the ring as the queue of its contents; that
-- a ring may refuse while another call is under way is part of the schedule.
--
-- Not modelled: sleeping, and the goroutines of the processes of cmd; HTTP, JSON, files and flags; the
-- text of the metrics; the chain client, and the commands of cmd/kaia-proofctl but for the bursts; the Rust prover and the
-- contracts.
pub mod Base
pub mod Frame
pub mod Ring
pub mod Metrics
pub mod Config
pub mod Pipeline
pub mod Services
pub mod Dashboard
pub mod Bundle
pub mod Chain
pub mod Commands
mod Tests
