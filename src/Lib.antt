-- ===== src/Lib.antt =====
-- Beelay: a peer of a network that keeps commit graphs of documents in step. This development
-- models the crate's core logic as functions and proves what makes it correct.
--
-- The parts and the files. `src/parse.rs` is Parse (Input: the input, its contexts and offset and
-- the parsers of a fixed size; Sized: `slice`, `str` and `many`; Utf8: what `str::from_utf8`
-- accepts; Reads: the relation in which the round trips are stated). `src/leb128.rs` is Leb128,
-- with its signed variant in Leb128/Signed, and `src/hex.rs` is Hex. `src/blob.rs`,
-- `src/commit.rs` and the identifiers of `src/lib.rs` and `src/snapshots.rs` are Blob, Commit and
-- Ids. `src/sedimentree.rs` is Sedimentree (Types: the data; Codec: the wire format; Strata: the
-- levels, `supports` and the strata that `minimize` keeps; Diff: the summary, `diff` and
-- `diff_remote`, and what `update` of `src/sedimentree/storage.rs` saves; CommitDag:
-- `src/sedimentree/commit_dag.rs`, with `simplify` and `canonical_sequence`; Bundles: the heads
-- and the missing bundles; Storage: `src/sedimentree/storage.rs`). `src/riblt.rs` is
-- Riblt/Symbols. `src/messages.rs` and `src/messages/` are Messages (Types, Tags, Items, Encode,
-- Decode, and Stream for the handshake), which use all of these. `src/storage_key.rs` is
-- StorageKey, `src/reachability.rs` Reachability, `Io` and the tasks of `src/effects.rs` and
-- `src/io.rs` are Effects, `src/request_handlers.rs` and `src/notification_handler.rs` Handlers,
-- `JobTracker` and the future of `src/effects.rs` are Jobs, and `src/subscriptions.rs` is
-- Subscriptions (Owed: which events a subscriber asks for; Delivery: one call of `new_events`; Later:
-- two calls). What a walk of `canonical_sequence` passes through is described in
-- Sedimentree/CommitDag/Canonical (Tips, Chosen, Behind). Tests holds concrete inputs.
--
-- How the code is written down. Numbers are native naturals; a word of 64 bits keeps its
-- wrap-around written out, and a signed word is given by its two's complement. A byte string and a
-- `String` are the list of their bytes, an array has its length in its type, a `HashMap` is an
-- association list with one entry for a key and a `HashSet` a list without repetition. `Result` is
-- a sum and a panic is `none`. A function that changes `self` takes the state and returns it. The
-- shared cell of a job (`Rc<RefCell<Option<_>>>`) is a place in a list of cells.
--
-- Fuel. `encode_loop` and `parse_loop` of the LEB128 code have ten rounds: a word of 64 bits has
-- at most ten groups of seven bits, and the parsers give up behind the tenth. `read_entries` has a
-- round for each byte and one more, and each entry takes sixteen bytes. A list of edges of the
-- commit graph has a round for each edge of the vector, and a walk one for each key that it can
-- meet (the nodes, or the hashes of the graph and of the strata) and one for the end.
--
-- Futures. A task that reads and writes the storage is run by itself, its futures one after the
-- other in the order in which they are made; Effects models what a future starts and what ends it.
--
-- Parameters. A storage (`load`, `load_range`, `put`), the orders in which a hash map and a hash
-- set of `simplify` give their elements, the hash `blake3`, the base 58 text of a document id, and
-- the digits of a hash as a number (the crate num) are arguments of the definitions that use them.
--
-- Not modelled: the encoder and decoder of the set reconciliation, the requests on snapshots, the
-- loading of reachable documents, the synchronisation of documents, the stories and the event
-- loop, which wait on futures; random ids, the printing of results and the rendering of errors as
-- text.
pub mod Prelude
pub mod Parse
pub mod Leb128
pub mod Effects
pub mod Handlers
pub mod Hex
pub mod Blob
pub mod Commit
pub mod Ids
pub mod Sedimentree
pub mod Riblt
pub mod Messages
pub mod Reachability
pub mod StorageKey
pub mod Jobs
pub mod Subscriptions
pub mod Tests
