-- ===== src/Lib.antt =====
-- Verification of the protocol primitives of hns-rs.
--
-- The repository is a workspace of independent crates of wire formats and state machines for
-- the Handshake ecosystem. The development models its lower crates and follows their layers:
--
-- Base and its children: shared names, Boolean tests, lists, results, byte strings.
-- Hash: the BLAKE2b-256 function of the `blake2` crate as an interface, an instance argument
-- of all that hashes. It is assumed only to return 32 bytes. BLAKE2b-512 is likewise an
-- interface, with 64 bytes. No theorem assumes that it is injective: where two messages may
-- collide the theorem has a collision as a further outcome. Where the bytes of a hash are
-- compared as a number, that they are 32 bytes is a hypothesis.
-- Encoding: crates/hns-encoding/src/lib.rs. `Decoder` and `Encoder` are records of the same
-- fields (Encoding.Decoder, Encoding.Encoder), a method is a function of the record, and a
-- method that fails by `?` is a step of the `Parser` monad. Encoding.Reads says when a reader
-- takes exactly given bytes; Encoding.RoundTrip and Encoding.Canonical hold the laws.
-- Journal: crates/hns-rollback-journal/src/lib.rs. Journal.Binding has the constants, the
-- errors and `JournalBinding`; Journal.Snapshot `StateIdentity`, `SealedSnapshot`,
-- `SnapshotImage` and `DatabaseObservation`; Journal.Record `JournalRecord` with `validate`,
-- `encode` and `fingerprint`; Journal.Decode and Journal.Codec the decoders; Journal.Mutation
-- the transitions (`privileged_enroll`, `prepare_transition`, `finalize_prepared`,
-- `privileged_retire`, `privileged_provision`) and `reconcile`; Journal.Recovery the planner
-- `plan_recovery`. The children RoundTrip, Lifecycle, Reconcile and Laws hold the proofs.
-- Primitives: the outpoint of crates/hns-primitives/src/lib.rs. Primitives.Chainwork has its
-- checked amounts and `Chainwork`; the children Laws, Codec and Cases relate limbs to natural
-- numbers.
-- Header: crates/hns-header-consensus/src/lib.rs. Header.Codec has `Header` and its wire form,
-- Header.Hashing its hashes, described again by the bytes that are hashed in
-- Header.Hashing.Laws, Header.Network the networks, Header.U256 the private `U256`,
-- Header.Target `DecodedTarget`, Header.Retarget `retarget_bits` and `expected_next_bits`,
-- Header.Validate `validate_header`. The parts use `Chainwork` of the layer below. The loop of
-- the division runs 257 rounds, and is a recursion on their number. Value, Bits, Division,
-- Work, Compact, Met, Rounding, Limit and the children named Laws hold the proofs.
-- Covenants: crates/hns-covenants/src. Covenants.Name has the errors, `validate_name`,
-- `hash_name` and `blind_bid` of lib.rs, Covenants.Covenant `Covenant` with `encode`,
-- Covenants.Decode its decoder; Covenants.NameState is name_state.rs with its decoder in
-- NameState.Decode; Covenants.Transfer and Covenants.Finalize are name_transition.rs. Label,
-- Size, RoundTrip, Fields and the children named Field, Bounds, Laws and Canonical hold the
-- proofs. SHA3-256 of the `sha3` crate is an interface like BLAKE2b. The bitmap of a name
-- state is a sum of powers of two, since each bit is set once.
-- Urkel: crates/hns-urkel-proof/src/lib.rs. Urkel.Prefix has the errors, `BitPrefix` and the
-- node hashes, Urkel.Proof `HsdUrkelProof` with `validate` and `verify`. The loop of `verify`
-- from the last node to the first is a recursion on the list of nodes. Urkel.Reader is
-- `ProofReader`, as a parser over the same two fields as `Decoder`, and Urkel.Wire the wire
-- form with `decode_inner`, `decode_strict`, `encode` and `UrkelProof`; a bitmap and a
-- two-byte length are sums of disjoint bits. Urkel.Tree is the specification: a radix tree
-- with its lookup and its root. Hashes, Descent, Terminal, Soundness, Bitmap, Reading,
-- RoundTrip, Admission and Shape hold the proofs.
-- Transaction: of crates/hns-transaction/src/lib.rs the errors, which mining passes on.
-- Mining: of crates/hns-mining/src/lib.rs the errors, `MiningSnapshot`, `block_subsidy` and,
-- in Mining.Merkle, `merkle_root`. Its loop over the levels runs on fuel, one round for each
-- node, which Mining.Merkle.Laws shows to be enough.
-- Tests: runs on concrete inputs, and each theorem with hypotheses at such an input.
--
-- Conventions. A byte string or array is a list of natural numbers; an integer of the source
-- is a natural number, with its range as a hypothesis or in a predicate such as `IsRecord`,
-- and each cast, checked addition and saturation is written out. `usize` has 64 bits. A
-- newtype stands for what it wraps. A getter is the field. An error drops the decoder, as each
-- caller does. A function of the source that may panic, `item_u8` and the retargeting with its
-- `clamp`, returns a `Failure`, which is an error or the panic. Loops are recursions on the list, and only that of `merkle_root` runs on fuel.
-- The capacity of an encoder reserves memory only, and a debug assertion is not modelled.
--
-- Not modelled: the crates above these layers (transactions and scripts, the rest of mining,
-- swaps, HNSR, resource manifests, service authority, marketplace, peer-to-peer wire, ODoH,
-- chat, DNS relay), whose wire formats and state machines are left out for their size; text
-- for errors and hexadecimal text of hashes, which is input and output; resource records; and
-- the hash functions themselves, which belong to other packages.
pub mod Base
pub mod Hash
pub mod Encoding
pub mod Primitives
pub mod Covenants
pub mod Urkel
pub mod Header
pub mod Transaction
pub mod Mining
pub mod Journal
pub mod Tests
