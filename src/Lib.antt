-- ===== src/Lib.antt =====
-- Verification library of the ascetic-ddd repository: models of its core crates, translated from
-- the source, and the theorems that make them correct.
--
-- The program is a set of crates for domain-driven design. This library models seven of them.
-- The domain code of an application uses them; the outbox and the key management bring up their tables
-- with the migrations, in parts that are not modelled.
--
-- * The identity map that a session hands to its repositories (crates/session/src/identity_map,
--   crates/session/src/isolation.rs) is IdentityMap. It keeps one object for each key of a
--   transaction. IdentityMap.Slot is what is known of one key (slot.rs): an entity or an absence
--   that the map anchors, or an entity that it has released and finds again only while the domain
--   holds it. IdentityMap.Recency (recency.rs) and IdentityMap.Generations (generations.rs) decide
--   which keys stay anchored, and IdentityMap.Window (window.rs) is either of them.
--   IdentityMap.State (state.rs) joins the slots and the window, IdentityMap.Policy (policy.rs)
--   says what an isolation level admits, and IdentityMap.Map (mod.rs) is the map with its public
--   calls. Functions have the names of the source. Under IdentityMap.Map, Calls has the sequences
--   of calls, Invariant the invariant of the memory, Truth, Held and Fresh what lookups answer.
-- * The specifications of the specification crate (crates/specification/src/domain) are
--   Specification: Operator (operator.rs), Operand (the trait of operand.rs), MemberPath and Ast
--   (ast.rs), NullTest (null_test.rs), and the evaluator of evaluate.rs in three parts: Scope (what
--   paths name), Truth (three-valued logic) and Evaluate (the walk over the tree). Record is the
--   candidate of record.rs, an instance of the evaluator's contexts; Value (value.rs) has the
--   standard values, an instance of its operands, and Value.Integer their 64-bit arithmetic.
-- * The two-track results of the rop crate (crates/rop/src) are Rop: Errors (errors.rs) and
--   Adapters (adapters.rs, ext.rs, and the macro `all!` of lib.rs).
-- * The sagas of the saga crate (crates/saga/src) are Saga: RoutingSlip (routing_slip.rs, with
--   activity.rs, work_item.rs, work_log.rs and error.rs), Alternative and Fallback
--   (fallback_activity.rs), ActivityHost (activity_host.rs; under it Network, hosts that send each
--   other messages, and Delivery, what they leave), Resolver (activity_resolver.rs, with
--   Registrations, one after the other) and Serialization (serializable_routing_slip.rs,
--   routing_slip_serialization.rs).
-- * The transactional outbox of the outbox crate (crates/outbox/src) is Outbox. Snapshot,
--   Position (message.rs) and Ring (pg/ring.rs) say what a consumer group has handed on and in
--   which partition, or generation, of the table a row lies; Table has the rows and what a
--   statement reads of them. Relay is `dispatch` for one slot (pg/dispatch.rs, with `start_epoch`,
--   `read_batch` and `ack` of pg/store.rs); under it Batch is about one batch, and Lane, Started,
--   Delivery and Steps lead to Runs, the sequences of steps of a relay, and Progress is about
--   relays that are repeated. Store is the other tables, and the moves of positions
--   (`set_position`, `forget_positions`); Reclaim is the pass that empties the generation with the
--   oldest row (pg/reclaim.rs).
-- * The key management of the kms crate (crates/kms/src) is Kms: Key (domain/key.rs), Cipher
--   (domain/cipher.rs), Kek (domain/kek.rs), MasterKey (domain/master_key.rs), and Service, the
--   use and the custody of the tenants' keys in a table (pg.rs), with Keeping, the calls that
--   leave a version in the table, under it. Cache is the cache in front of a service (cache.rs),
--   and Shredding joins the two.
-- * The migrations of the migration crate (crates/migration/src/lib.rs) are Migration: `migrate`
--   brings a component's tables up to its migrations, which a ledger records. Ledger under it is
--   about the rows that a run keeps, and Current about what a run leaves.
--
-- An `Arc` is the address that its handles share. The strong handles that stand outside the map
-- when a call is made are an argument, `held`; the handles inside are counted from the slots. So a
-- sequence of calls gives the handles outside at each call. A `HashMap` is a list of entries of
-- which no two have one key, a `BTreeMap` a list in the order of its keys, and the order of the list
-- of a `HashSet` stands for the order in which the set is iterated. Keys are any type with a
-- decidable equality. The clock of the recency window is 64 bits wide and wraps; theorems about
-- sequences of calls suppose fewer than 2^64 of them, one tick for each, which is why it never
-- wraps there. All loops of the identity map and of the evaluator are structural recursion, on the
-- list that the loop consumes or on the tree.
--
-- In specifications the type of values and the contexts are parameters, as in the source, where
-- they are traits. What the documentation of the trait `Operand` says of the null and of truth
-- values is the hypothesis `IsLawful`, which Specification.Value.Laws proves of the standard values.
-- Floats, UUIDs and the readers of texts are parameters there. An `i64` is an integer in the range of
-- 64 bits: what the source checks is checked, and what wraps is taken modulo 2^64.
--
-- In sagas, what activities do to the world is a state that their methods pass on, and an
-- asynchronous method is its result. An activity may extend the slip that it compensates, so the
-- loops over a slip have fuel, and give no result when it runs out; for activities that can be
-- undone, as many rounds as the slip has work items are enough, which Saga.Alternative.Atomic and
-- Saga.Fallback.Recovery prove with the rest of their claims. Shared slips live in a store, by
-- address.
--
-- In the outbox, a statement reads the tables as they stand at its time: the views of a step's
-- statements are arguments, and a run of a relay supposes only that later views have the earlier rows
-- and see what they saw. Rows stand in the order of their positions, which start at 1. The comparison
-- of texts and LIKE are the server's, and arguments (`Texts`). A step of a relay has no loop but over
-- the rows that it reads, so nothing has fuel there. A row of the offsets table is locked for the
-- step, so that its update finds it.
--
-- In the key management, the package that seals bytes and the source of random bytes are a
-- `Platform`; `IsLawful` is what they document. A text is the bytes that encode it. A call that makes
-- a key where there is none reads the table before the tenant's lock and under it, and both tables are
-- arguments; a scope that fails leaves the table as it was. The calls of the cache follow each other:
-- a call that the service answers while another forgets its tenant is not among them. The loop that
-- makes room in the cache has as much fuel as there are entries, since each round removes one, which
-- Kms.Cache.Room is about.
--
-- In the migrations, what a step's statements do to the schema is a parameter (`Server`), and a run is
-- alone: no other runner acts between its steps. Its loop is structural recursion on the migrations.
--
-- Not modelled: the lock of the map, its debugging output and the downcast to an entity's type; how
-- keys are hashed; the printing of errors; the readers of dates and UUIDs, the conversions into
-- values, the notations, and the compiler to SQL; the parallel activity of sagas and the
-- dictionaries of its values; of the outbox, the look for a slot among several, publishing, the
-- loops, the migration, the rebase and the adapters to brokers; of the key management, the signing
-- and MAC keys, the remote vault and the calls that the cache passes on; of the migrations, the
-- tries of a blocked step; and the other crates, which are I/O
-- on databases, brokers and vaults to a large part.
pub mod Prelude
pub mod IdentityMap
pub mod Specification
pub mod Rop
pub mod Saga
pub mod Outbox
pub mod Kms
pub mod Migration
