-- ===== src/Lib.antt =====
-- A verification library for the contracts of the pool and for the spending of notes from the wallet.
--
-- The program. A pool contract (contracts/pool) keeps deposits behind commitments, the leaves of a
-- Merkle tree. A transaction spends notes by their nullifiers and adds two commitments; a
-- zero-knowledge proof, which a verifier contract checks, binds the two sides to the public amount
-- that is paid in or out. Two contracts of an association set provider (contracts/asp-membership,
-- contracts/asp-non-membership) publish the roots that the proof is also made against.
--
-- The files:
-- - Prelude: names of the libraries, lists over the native numbers, Boolean tests, the outcome of a
--   call (`Outcome`), checked machine arithmetic (`checked_add`, `checked_shl_one`, `try_from`), and
--   signed integers. Rust's `?` is the bind of `Outcome`, `ok_or` is `Option::ok_or`, `ensure` is a
--   guard that returns an error, `require` and `trap` stand for a panic, which undoes the call.
-- - Poseidon: contracts/soroban-utils/src/poseidon2.rs, `bn256_modulus` of constants.rs beside it,
--   and the 33 zero hashes of `get_zeroes`. The permutation of the host is a parameter (`Host`); the
--   hypothesis `IsPermutation` is the documented behaviour of it: as many field elements as it was
--   given.
-- - Admin: `update_admin` of contracts/soroban-utils/src/utils.rs. `Auth` says who has authorised
--   the call (`require_auth`).
-- - Merkle: the loop that `insert_two_leaves` and `insert_leaf` share (`climb`), the nodes of a
--   Merkle tree over a list of leaves (`node`, `merkle_root`), and the lemma that the loop computes
--   the new root and keeps the stored siblings.
-- - PoolTree: contracts/pool/src/merkle_with_history.rs. `Storage` has a field for each key.
--   `PoolTree.Tree` is the abstraction: a list of leaves, and the list of all roots, newest first.
-- - Membership: contracts/asp-membership/src/lib.rs, with the list of leaves as the abstraction.
-- - NonMembership: contracts/asp-non-membership/src/lib.rs, a sparse Merkle tree of blocked keys: the
--   state and the search, with Insert, Delete and Verify for the entry points of these names. A
--   node's vector is what the state's `nodes` has under its hash. `NonMembership.Tree` is the
--   specification: a binary tree of entries (`Smt`), with `search` and `insert`, and `Holds`, that a
--   state holds a tree. The siblings that `insert_leaf` takes off its list after the loop are not
--   used again, and are left out.
-- - Pool: contracts/pool/src/pool.rs. `Pool.Types` has the state (`State`, a field for each key, with
--   the tree, the token transfers and the events published), and `World`: what the calls of other
--   contracts and of the host answer. `Pool.Amount` is the arithmetic of amounts, `Pool.Nullifiers`
--   the spent nullifiers, `Pool.Proofs` the public inputs and the calls of the verifier and of the
--   ASP contracts, `Pool.Transact` the transaction, `Pool.Settings` the rest of the entry points.
-- - Verifier: contracts/circom-groth16-verifier/src/lib.rs, and the reading of a proof from its bytes,
--   contracts/types/src/lib.rs. A point is its bytes, and the host's operations on points are a
--   parameter (`Curve`). The embedded key, which the build writes, is an argument.
-- - Registry: contracts/public-key-registry/src/lib.rs, with the stream of its events.
-- - Planner: app/crates/core/tx-planner/src, which notes of the wallet to spend and in which steps. A
--   candidate is the index of a note and its amount. `Planner.Two`, `Planner.One` and `Planner.Many`
--   are `TwoScan`, `OneScan` and `KScan` of plan/combination.rs, each with a module Sound for what its
--   answer says and a module Few for how few notes it takes, and `Planner.Combination` is
--   `find_combination`. The unstable sort is a parameter: it gives some permutation, and where it
--   matters one that orders by the amount. `Planner.Plan` is plan/mod.rs: `plan`, and `resolve` of a
--   step. `Planner.Session` is execute/mod.rs: the spend session, with `Session.Exact` for the steps
--   of its plan, `Session.Reached` for the sessions that completed steps reach, `Session.Merged` for what holds between two steps, and
--   `Session.Runs` for the runs in which every merged note gets a commitment new to the wallet.
-- - Prefix: app/crates/core/prover/src/merkle.rs, the Merkle tree of the client over a prefix of the
--   leaves. `next_level` and `padded` are the inner loop and the padding that `root` and
--   `build_from_parts` share, `hash_pair` is the compression of circuits/src/core/merkle.rs over the
--   permutation of a library, which is taken for the host's. `fold_path` is what a circuit does with
--   a proof. `IsZeroChain` says that the zero table of the contracts is made with the permutation.
-- - Amounts: app/crates/core/types/src/amounts.rs, the amounts of the client and their conversions
--   to field elements. A panic is `trap`.
-- - Samples: a host for the tests.
--
-- Choices. A call that fails leaves the state as it was, since the host undoes its writes: an
-- operation returns its new state inside `ok` only, and `kept` is the state after any call.
-- Addresses and U256 values are natural numbers; the code only compares U256 values, hashes them and
-- does the arithmetic of amounts, whose bounds are written out. I256 is `ℤ` with its bounds checked.
-- Maps and keyed storage are functions into `Option`. The loop of `is_known_root` runs on fuel: 91
-- rounds, since it goes round the 90 slots from the current index; from an index of 90 or more,
-- which no operation stores, it would not end, and the model traps. The loop of `TwoScan` has as many
-- rounds of fuel as candidates: its pointers come closer in every round. The search of `KScan` is
-- recursion on the candidates that are left. The search of the sparse Merkle tree is recursion on the
-- 256 bits of the key. That hashes do not collide is a hypothesis on the trees at hand (`Decodes`): a
-- function `read` gives each subtree back from its hash, and the empty tree from zero.
--
-- Not modelled: the time to live of storage entries, budgets and fees of the host, the wire format
-- of arguments, the circuits, the text and byte forms of the client's amounts, and the rest of the applications,
-- services and tools of the repository.
pub mod Prelude
pub mod Poseidon
pub mod Samples
pub mod Merkle
pub mod PoolTree
pub mod Admin
pub mod Membership
pub mod Pool
pub mod Verifier
pub mod Planner
pub mod Registry
pub mod NonMembership
pub mod Prefix
pub mod Amounts
