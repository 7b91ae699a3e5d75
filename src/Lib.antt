-- ===== src/Lib.antt =====
-- Verification library of ohm-ecdsa, threshold ECDSA with identifiable aborts.
--
-- The program. A committee of parties shares a key by a commit-reveal DKG (src/protocol/dkg.rs), makes
-- presignatures ahead of time, and signs a message in one round: each party broadcasts a signature share
-- (src/protocol/sign.rs), each receiver checks it against a public Feldman commitment, and combines the
-- first t good ones. A value that fails its check names its sender: the errors carry the blamed parties
-- (src/error.rs). All of this rests on Shamir sharing (src/primitives/shamir.rs), Feldman commitments
-- (src/primitives/vss.rs) and verified openings (src/primitives/open.rs). Presignatures wait in stores
-- that give each out once (src/runtime/store.rs), and src/runtime/policy.rs chooses the committee of a
-- restart after blame.
--
-- The files. Prelude has the shared helpers on lists, options and numbers. Field, Curve, Rng and Encoding
-- are the interfaces of the code that the repository only calls: the scalar field and the curve group of
-- `k256`, the random source of `rand`, the canonical encodings and SHA-256 of `sha2`. They are records of
-- operations with the laws that the library documents; Field.Laws, Field.Polynomial and Curve.Laws derive
-- what the proofs use. The group is cyclic of prime order, and `log` is a proof device, which no
-- definition of the program calls. Gf7 is the field of seven elements, an instance of every interface
-- at which the theorems are applied to concrete inputs.
--
-- Core models src/error.rs and the first half of src/lib.rs: phases, errors, `Result` with a third case
-- for a panic, parameters and committees; Core.Map is `BTreeMap`, an association list in key order.
-- Shamir, Vss, Open, Dkg, Presign, Sign, Store and Policy model the files of the same name; the children
-- of each hold its proofs, and its Tests child the concrete runs. Functions keep the names of the code, with
-- `new_params`, `new_committee`, `open_shares`, `insert_presig` and `insert_record` for `Params::new`,
-- `Committee::new`, `open`, `PresigStore::insert` and `KiPool::insert`, and `cm` for `com`, a reserved word. A
-- method on `&mut self` returns the new state; a random source is passed along.
--
-- Wire models the canonical encoding of src/runtime/transport.rs: its primitives, the DKG messages
-- (Wire.Messages) and the envelopes (Wire.Envelopes). `encode` gives the bytes that the code appends; a
-- `usize` has 64 bits there, and the round trips ask that ids and lengths fit. Blame models the signed
-- envelopes and the blame token of the same file, over a signature scheme as a parameter. Dleq models
-- `prove` and `verify` of src/primitives/dleq.rs, over the reduction of a digest as a parameter.
--
-- Dkg.Rounds runs the rounds of a DKG for all parties, as the rest of src/protocol does in one process. Triples
-- models the generation of one Beaver triple in src/protocol/triples.rs, and Presign.Run the presigning of one
-- record in src/protocol/presign.rs, both over any committee and with the fault injection of the tests.
-- Vectors that the code keeps in parallel are lists of records there, and `&mut rngs` is passed along. The
-- x-coordinate of a point, reduced to a scalar, is a parameter, as in signing; it is missing for the identity,
-- where the code panics. Presign.Ki is the key-independent form. Refresh and Refresh.Reshare model
-- src/protocol/refresh.rs, the proactive refresh and the resharing to another committee. Core.Tags has the
-- domain tags, and the decimal text of an id that `format!` gives. A fault injection is one of the cheats that the
-- tests of the code name; the theorems hold for each of them and for none.
--
-- Triples.Robust is the generation that goes on after bad re-shared shares. Sim models the reference
-- orchestrator src/runtime/sim.rs: Sim.Signing the signing with a presignature, directly or through the
-- single-use stores, strict, packed and robust; Sim.SigningKi the two rounds of key-independent signing;
-- Sim.Restart the restarts of triple generation after an abort. `Signature` of `k256` is a parameter there, with
-- what `from_scalars` and `normalize_s` document.
--
-- Journal models the hash-chained journal of the node's store in node/src/store/persist.rs: the encoding of its
-- entries, `append`, and `journal_replay`, which reads a journal back and checks it. The file is its bytes, and
-- the writes are taken to succeed. Journal.Reconcile models `reconcile_journal`, which compares the journal with
-- the store's directory.
--
-- Loops are structural recursion on the list they read, but for three. The replay of a journal has its bytes as
-- fuel, enough since an entry takes at least the four of its length. The decimal digits of a record's id have
-- fuel for twenty digits, enough for 64 bits. The restarts have fuel for one attempt more than there are
-- parties, which is enough since every abort expels a party. Party ids and lengths are
-- natural numbers: they are `usize` in the code and never computed near its bound. A subtraction `2t - 1`
-- comes after the test `t < 1` as it does in the code; a threshold of 2^63 or more, for which the `2t` of the code
-- does not fit a `usize`, is outside the model.
--
-- Not modelled: erasure of secrets on drop, which has no value; the batch and packed forms of triple
-- generation and presigning, and robust presigning; the aggregate check of DLEQ proofs; the batch DKG; the
-- transport's queues and drivers, and what of the orchestrator rests on them; the node but for its
-- journal (sockets, files, sealing, threads), the EVM demo, the browser binding and the examples. The
-- honest-majority and zero-knowledge arguments are statements about adversaries and not made here:
-- the theorems are about what the code computes on any messages.
pub mod Prelude
pub mod Field
pub mod Curve
pub mod Core
pub mod Gf7
pub mod Rng
pub mod Shamir
pub mod Vss
pub mod Open
pub mod Encoding
pub mod Dkg
pub mod Presign
pub mod Triples
pub mod Sign
pub mod Sim
pub mod Store
pub mod Dleq
pub mod Blame
pub mod Wire
pub mod Policy
pub mod Refresh
pub mod Journal
