-- ===== src/Lib.antt =====
-- A verification library for us, packages to interact with the Sia network: renting storage from
-- hosts, and keeping a wallet.
--
-- The parts of the program. Package merkle computes Merkle roots of sectors, builds proofs that
-- segments belong to a sector and verifies the proofs of hosts; it is the base of the renter's trust
-- in a host. Package renterhost encodes the messages of renter and host and sends them encrypted.
-- Package wallet keeps the state of a wallet, funds transactions and signs them. Package renter splits
-- data into shards and the sectors of hosts, and finds it there again.
--
-- Merkle/Hash models merkle/blake2b/blake2b.go. The hash function Sum256 is a parameter, of which
-- only the size of its results is used; a collision is a value, not an assumption.
-- Merkle/Forest describes a compressed Merkle tree as a binary counter. Merkle/ProofStack and
-- Merkle/AppendStack model the two stacks of merkle/stack.go, with `used` as a word of 32 bits and a
-- panic as `none`; the counter is their abstract specification. Merkle/Tree defines the root of a list
-- of leaves through the counter. Merkle/Roots, Merkle/Reader and Merkle/Size model merkle/merkle.go and the sizes of merkle/proof.go.
-- Merkle/RangeProof models BuildProof and VerifyProof of merkle/proof.go. The size of a sector is
-- chosen at build time (renterhost/consts.go): Merkle/Build has any power of two up to 2 ^ 16 segments.
--
-- Wallet/Types and Wallet/Address model the data of wallet/wallet.go; the identifiers of Sia's
-- transactions and the hash of unlock conditions are parameters. Wallet/Funding models the selection
-- of inputs in wallet/builder.go, with sort.Slice as a parameter that rearranges a list and puts it in
-- order, Wallet/Store the store of wallet/ephemeralstore.go: its maps are
-- association lists on byte strings (Prelude/Maps), and its operations are the steps of Wallet/Store/Seed.
-- Wallet/Relevant and Wallet/LimboOutputs model RelevantTransaction, relevantTxn of
-- FilterConsensusChange and CalculateLimboOutputs of wallet/wallet.go, and Wallet/Filter the outputs
-- that FilterConsensusChange keeps of a change of the chain, with the payouts of miners. The transactions
-- and file contracts of a change are arbitrary there.
--
-- Wallet/SeedWallet models SeedWallet and HotWallet of wallet/seedwallet.go over that store: the inputs
-- of a wallet, its addresses and SignTransaction. A call is one step, without another call between its
-- critical sections, of which NextAddress has two. A method that only calls the store is the store's. Wallet/SeedWallet/Steps is the relation of the wallet's own steps.
-- ed25519 and Sia's SigHash are parameters; of SigHash it is used that the hash for a full signature of the
-- whole transaction does not depend on signatures. Wallet/Bip39 models the seed phrases of wallet/bip39.go,
-- with SHA-256 and the word list as parameters and a phrase as the list of its words.
--
-- Package renterhost is the protocol between a renter and a host. RenterHost/Buffer models objBuffer of
-- renterhost/encoding.go: a writing method gives the bytes that it appends, a reading method is a
-- function on the buffer with its sticky error, and the operators combine readings in order.
-- RenterHost/Object has the interface ProtocolObject, as a record, and the objects of types of Sia;
-- RenterHost/Rpc has the requests and responses of renterhost/session.go. An object is one value with
-- marshalledSize, marshalBuffer and unmarshalBuffer; arrays are lists, whose lengths the conditions on
-- objects state; RenterHost/Currency models big.Int by its words. RenterHost/Messages is the family of
-- all the objects. RenterHost/HashRevision models HashRevision, and RenterHost/Handshake the two
-- objects that are sent before there is a cipher, on a stream whose first read may get any number of
-- bytes, and NewHostSession and NewRenterSession in Handshake/Sessions. Key exchange, signatures and the
-- cipher of a key are a parameter there: the two sides derive one secret, and a signature verifies.
--
-- RenterHost/Session models Session on a connection that is two lists of bytes, incoming and outgoing.
-- The cipher (cipher.AEAD, with its key) is a parameter, of which the length of a sealed text and the
-- opening of a sealed text are used; nonces and the memory of the buffer are arguments. A panic is
-- `none`. Session/Rpcs has the requests and responses, Session/Steps the operations as a relation.
-- Session/Tag is the padding that VerifyTag authenticates.
--
-- Renter/Sections models calcSections of renter/download.go, which splits a part of a shard into
-- sections of sectors; the bytes of sectors are its specification. Renter/Redundancy models checkShards
-- and simpleRedundancy of renter/reedsolomon.go, on shards that are slices of their own memory: what is
-- between the length and the capacity of a shard is part of the state, since Encode extends it and
-- Recover may slice into it. The writer is a parameter, and the outer loop of Recover has fuel. The coder
-- with parity calls internal/reedsolomon, a copy of another project. Renter/SectorBuilder models
-- SectorBuilder and the uploads of ShardUploader of renter/upload.go; the key stream is a parameter, of
-- which two facts are used: applied twice it is the identity, and it keeps the length. The session of
-- an uploader is the list of the calls of its Write, and what it answers is a function of these.
--
-- Integers are natural numbers; words keep their wrap-around. Recursive functions of the source have
-- fuel: the height of the tree for the proofs, the number of roots for MetaRoot, 33 rounds for the
-- carry of a word of 32 bits, one round more than inputs for FundTransaction, one more than bytes for
-- ReaderRoot, one more than chunks for Encode. That this is enough is part of the theorems that say a
-- function succeeds. The words of a big.Int are counted with the number itself as fuel.
--
-- Not modelled: the assembly of the hash and field operations, network errors other than the end of a
-- stream, disk access, ed25519, key exchange, the database store of the wallet, the archive format of
-- metafiles, the revisions of contracts in renter/proto, and the utilities on top of them.
pub mod Merkle
pub mod Prelude
pub mod Renter
pub mod RenterHost
pub mod Wallet
