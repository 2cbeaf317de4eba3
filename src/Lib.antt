-- ===== src/Lib.antt =====
-- The secret sharing, the protocol rounds, the messages and the recovery of ampc-common.
--
-- Three parties hold every value in shares. ampc-secret-sharing has the rings, the replicated shares
-- and the Shamir shares over a Galois ring; all of its arithmetic wraps at a power of two. The
-- protocol of ampc-actor-utils makes rounds of communication out of the local operations on shares and
-- sends its values as bytes, and its work pool spreads jobs over workers and gathers their responses.
-- The servers of ampc-server-utils bring their logs of modifications into agreement when they start.
--
--   Base           the names that all modules share: Boolean tests and lists over the native numbers,
--                  remainders, bits, options as a result of code that may panic, sets and maps,
--                  byte buffers with readers that give a value, an error or a panic, and equality
--                  tests as an interface
--   Ring           ampc-secret-sharing/src/shares/int_ring.rs and ring_impl.rs. `RingElement<T>` with
--                  `T::K = k` is a number, and `Ring.add k` and the others are its operators; the
--                  bits of an element and the vectors of elements are there too
--   Ring48         ampc-secret-sharing/src/shares/ring48.rs, on numbers that stand for `u64` values
--   Bit            ampc-secret-sharing/src/shares/bit.rs, on numbers that stand for the byte
--   Share          ampc-secret-sharing/src/shares/share.rs. The role of a party is its index
--   Galois         ampc-secret-sharing/src/galois.rs, `degree4::GaloisRingElement`
--   Shamir         ampc-secret-sharing/src/galois.rs, `degree4::ShamirGaloisRingShare`
--   Protocol       ampc-actor-utils/src/protocol/prf.rs and ops.rs. A round is split at the network:
--                  one function computes the message, one takes the message received. A theorem on a
--                  round puts the three parties' functions together as the network does, the message
--                  of a party to its successor
--   Binary         ampc-actor-utils/src/protocol/binary.rs: the injection of shared bits into a ring,
--                  the conjunction of shared words and the opening of shared bits, in the same way
--   Shuffle        ampc-actor-utils/src/protocol/prf.rs and shuffle.rs: the rejection sampling, the
--                  permutations that the parties generate, and the rounds of the three parties
--   Wire           ampc-actor-utils/src/network/mpc/value.rs: the messages of the parties as bytes.
--                  `Wire.Decode` has the readers, `Wire.Bits` the packed bits
--   Messages       ampc-actor-utils/src/network/workpool/value.rs, payload.rs, mod.rs and
--                  worker/worker_task.rs: the messages of the work pool as bytes, the loops that
--                  write and read them, and the worker. A connection is the list of the bytes on it
--   Jobs           ampc-actor-utils/src/network/workpool/leader/job_tracker.rs. An operation takes the
--                  tracker and gives the new one, or an error that leaves it as it was
--   Leader         ampc-actor-utils/src/network/workpool/leader/mod.rs and leader_task.rs: the checks
--                  on the messages of a scatter-gather job, which make their workers the set that
--                  `Jobs` registers, and `send_to_workpool`, which registers a job and sends its
--                  commands
--   Modifications  ampc-server-utils/src/modifications.rs: the plan that a party makes from its own
--                  log and the snapshots of all parties. A map is a list in the order of its keys
--
-- The random elements that an encoder draws are arguments, in the order of the draws, and the
-- generator of the protocol is a parameter that is assumed to fill as many elements as it is asked
-- for. A panic, and an error without a payload, is `none`; where the two are told apart they are
-- `panic` and `bail`. The loop of `Galois.pow` has fuel 32, one round for each binary digit of a `u32`
-- exponent; the rejection loop of the sampling has fuel for its draws, and a theorem that uses it
-- assumes that one of them is accepted; the reader of a vector of values and the reading loop of
-- the work pool have fuel for the bytes or the messages that are there, and theorems say that it is
-- enough.
--
-- Not modelled: where random elements come from, formatting, casts between slices,
-- JSON, and everything that is input and output: TCP and TLS connections, the tasks that wait and
-- reconnect, the queue and database clients, metrics and configuration. The adders and the
-- comparisons of the binary protocol and the synchronisation of batches are not modelled either,
-- nor are the checks and the reshaping of batches around the rounds of the shuffle.
pub mod Base
pub mod Ring
pub mod Ring48
pub mod Bit
pub mod Share
pub mod Galois
pub mod Shamir
pub mod Protocol
pub mod Wire
pub mod Messages
pub mod Jobs
pub mod Leader
pub mod Modifications
pub mod Shuffle
pub mod Binary
