-- ===== src/Lib.antt =====
-- A model of the core of the Atol SDK for Go: the relationship-based access control engine under
-- zanzibar/, the sync client and the serving gate of sync/, the read path with its staleness gate and
-- decision log, the policy engine around OPA, the signed streams of hmac/, and the validator of DPoP
-- proofs.
--
-- The parts and how they interact. zanzibar/model compiles a YAML document into a Model, and
-- validates tuples against it. zanzibar/store keeps the tuples (MemoryStore). zanzibar/check answers
-- whether a user has a relation on an object, from a Model and what a store reads. zanzibar (Engine)
-- holds a default model and one per tenant, and composes the three: each tuple operation parses its
-- keys, resolves the model of the tenant, validates, records or notifies, and changes the store.
-- sync/tenant_serving_gate.go is asked before each decision. sync/sync.go applies a stream of mutations
-- to the Engine, to the policy engine and to the gate. atol.go asks the gate and the staleness gate,
-- evaluates the policy, and logs the decision in the bounded buffer of decision/.
--
-- Files and code:
--   Prelude        Booleans, lists, byte strings and association lists, results, and int64 as ℤ.
--   Zanzibar/Model Types, Keys and Validate are zanzibar/model/types.go, the keys of
--                  zanzibar/store/memory.go and the parsers of zanzibar/check/checker.go, and
--                  zanzibar/model/validate.go. Compile and Passes are zanzibar/model/compiler.go.
--                  WellFormed and Floors are about what Compile returns.
--   Zanzibar/Store Memory and Replace are zanzibar/store/memory.go. The other files are about it:
--                  Index (writes and deletes), Reads and Queries (reads), Floors and Runs (minimum
--                  holders), Tx, Diff and Replaced (transactions).
--   Zanzibar/Page  Order and Cursor are the pages of zanzibar/store/store.go, and Read is the page
--                  methods of zanzibar/store/memory.go. Sorted, Strict, Next, Scan, Distinct, Whole and
--                  Unique are about them.
--   Zanzibar/Check Checker is zanzibar/check/checker.go. Granted says what a check means, of the
--                  held tuples and the rules alone. Grants is the derivations in the checker's own reads and
--                  queries, and Meaning compares the two. Sound, Visits, Misses and Complete compare Grants
--                  with the checker; Ends and Universe are about fuel; Decides, OverMemory and Held put them
--                  together. ContextStore is zanzibar/store/context_store.go, and Overlay is about
--                  it. Listing is zanzibar/check/list.go, and Listed is about it.
--   Zanzibar/Engine State, Cache, Steps and Tuples are zanzibar/zanzibar.go,
--                  zanzibar/relationships.go and zanzibar/model_cache.go. Revisions and Fence are about
--                  the model cache, Writes, Deletes and Floor about the tuple operations. Bounded is zanzibar/pagination.go,
--                  CanDeleteBounded and the counts; Pages and CanDelete are about it. Lists is ListObjects
--                  and ListUsers of zanzibar/zanzibar.go.
--   Sync           ServingGate is sync/tenant_serving_gate.go, and Leases is about its lifetime. Bootstrap is
--                  bootstrap/bootstrap.go.
--   Sync/Client    State is sync/status.go and the state of sync/sync.go, Apply its mutations, Stream its
--                  stream and the loop of Run. Waits, Token, Versions and Overlaid are about them.
--   Decision       Log is decision/buffer.go and decision/logger.go, and Queue is about it.
--   Dpop           Guard and Validate are dpop.go, and Replay is about it.
--   Hmac           Bytes and Stream are hmac/stream.go. Frames, Steps, RoundTrip, Accepted, Authentic,
--                  Unforged and Reads are about it.
--   Policy         Document, Data and Engine are policy/engine/engine.go, with policy/engine/builtins.go, and
--                  Contract is policy/engine/decision_contract.go. Paths, Decisions, Granted, Decided and Held
--                  are about them, and Data also about the client of sync/ over SetPolicyData.
--   Sdk            Safeconv is internal/safeconv/safeconv.go, Gate is staleness.go and
--                  tenant_serving.go, Decide is the decisions of atol.go. Audit and Quiet are about them, and
--                  Granted is about them over the policy engine of Policy.
--                  Sessions is session_validator.go, and Revoked is about it. Writer is tuple_writer.go,
--                  and AccessList and Members are access_list.go.
--   Examples       concrete models, stores, engines, gates, clients and calls.
-- A definition has the name of the Go function in snake case; a method takes its receiver's state
-- last and returns the new one. A Go map is an association list without double keys, and a loop over
-- a map runs in the list's order. A mutex makes an operation one step.
--
-- Fuel. ListUsers recurses along computed relations without a visited set, so it runs on any fuel.
-- Check recurses while the visited set grows, so it runs on fuel, one unit for each call of check.
-- The fuel fuel_for is one more than the number of visit keys that a query can reach: these are built
-- from the relations of the model and the objects and users of the stored tuples. A scan over pages runs
-- on one unit for each page, and one more than the number of matching tuples is enough. The encoder of a
-- stream runs on one unit for each byte of the source and one more, and a reader of it on one unit for each
-- envelope and two more.
--
-- Parameters, for code outside this repository: Unmarshal of yaml.v3 (its result), ulid.ParseStrict
-- (which identifiers it accepts), ctx.Err() (its answers in order), the clock (an argument), the
-- ModelStore (its answers during an operation), the notifier (the list of its calls, and which tuples
-- a recorder accepts), JSON, base64 and SHA-256, the JWT and URL libraries of the DPoP validator, the
-- stream of the control plane (its messages and its end) and the rebootstrap callback (what it reloads),
-- the sink of the decision log (which batches it accepts), the keyed hash of the signed streams, and OPA
-- (what a bundle holds, whether it compiles, what an evaluation asks and yields, and its store). For the sync client
-- and the SDK client the policy engine is an interface: LoadBundle, SetPolicyData and Evaluate.
--
-- Assumptions that theorems name: a clean tuple or key has no separator of the key format inside its
-- fields, since the string keys are not escaped; a named query, tuple or model has no empty part that a
-- filter would leave open, and no stored userset is one of the user's own object; the
-- store does not change during one Check; the engine's store is a MemoryStore, which has every optional capability.
--
-- Not modelled: error texts (an error is a constructor with its arguments), CheckDebug, the notifier's
-- routing, construction and configuration, what OPA does inside, and what is I/O or calls of other
-- libraries (RPC transport, JWT parsing, HMAC transport, device signals, middleware, metrics).
pub mod Decision
pub mod Dpop
pub mod Examples
pub mod Hmac
pub mod Policy
pub mod Prelude
pub mod Sdk
pub mod Sync
pub mod Zanzibar
