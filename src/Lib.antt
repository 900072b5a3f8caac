-- ===== src/Lib.antt =====
-- secdogie: the trust, gating and failure-handling core of the Python packages.
--
-- The program is a mesh of agents. identity/secdogie_identity decides whom a node trusts: signed
-- payloads, capability grants, and revocations that k of n masters sign. citadel/secdogie_citadel
-- decides what an agent may do (an instruction gate, an action-plan gate, operator-signed
-- authorizations), keeps a signed journal that nodes replicate, and orders the goals in it.
-- inference/secdogie_inference routes model calls through nodes that may fail or mutiny, and keeps
-- their failures, latches and key leases. transport/secdogie_transport carries messages on named
-- channels, and keeps who is in the mesh: a gossiped membership and a DHT over it.
-- dialogue/secdogie_dialogue is the session between an operator's app and a node over a lossy link.
-- The citadel, the inference mesh and the membership check signatures through identity and take its
-- allowlists.
--
-- Prelude and its children are shared: Dict is Python's dict (an association list in insertion
-- order, with lookup, put, remove, retain), sets are lists without repetition, Option chains are do
-- blocks in which `none` is an early return, and strip and sorted_set follow Python's.
--
-- Identity (identity/secdogie_identity)
--   Identity.Json        the untrusted objects: JSON values whose numbers are natural numbers
--   Identity.Signing     signing.py: verify_payload
--   Identity.Capability  capability.py: _check_scopes, verify_capability, effective_scopes, allows
--   Identity.Revocation  revocation.py: MasterSet, verify_revocation
--   Identity.Store       policy.py: RevocationStore (load, append, stamp) over the text of its file
--   Identity.Policy      policy.py: TrustPolicy (the constructor is open_policy, contains is trusts,
--                        _merge is merge)
-- Citadel (citadel/secdogie_citadel)
--   Citadel.Socratic     socratic.py: the checks of an instruction, and review
--   Citadel.Authz        authz.py: action_hash, verify_authorization; PlannedAction of action_gate.py
--   Citadel.ActionGate   action_gate.py: Context has the data, Checks the fifteen checks, and the
--                        module itself the decision (gate)
--   Citadel.LoopGate     loop_gate.py: to_planned and the gate of make_plan_gate, on the view that
--                        _gate_view of agent/secdogie_agent/loop.py makes
--   Citadel.Goals        goals.py: GoalTree's apply, ready and topo_order, build_goal_tree
--   Citadel.Journal      journal.py: append, merge (_accept is accept), since, heads, verify
--   Citadel.Sync         sync.py: events_since, sync_round
-- Inference (inference/secdogie_inference)
--   Inference.Breaker    breaker.py: CircuitBreaker
--   Inference.Health     health.py: Suspicion and FaultTracker
--   Inference.Mutiny     mutiny.py: MutinyLedger
--   Inference.Lease      lease.py: check_lease, check_lease_revocation, LeaseBook; signed_by and the
--                        field tests of protocol.py
-- Transport (transport/secdogie_transport)
--   Transport.Mux        mux.py: encode, decode
--   Transport.Endpoint   endpoint.py: Endpoint, EndpointSet.add
--   Transport.Dht        dht.py: RoutingTable's add, remove and closest; Transport.Dht.Lookup the lookup
--                        behind find_node and find_peer, with max_rounds as its fuel
--   Transport.Membership membership.py: verify_record, MembershipView, gossip_round
-- Dialogue (dialogue/secdogie_dialogue)
--   Dialogue.Bytes       the big-endian integers of struct
--   Dialogue.Frames      session.py: fragments, and the layout of both frames (pack, unpack)
--   Dialogue.Session     session.py: DialogueSession's send, receive and _reassemble;
--                        Dialogue.Session.Clock is tick
-- Tests                  runs on concrete data
--
-- Conventions. Operations are functions from a state record to the new state and the result. What is
-- outside the repository is a parameter: the record Crypto has the DID check, the Ed25519 check of a
-- base64 signature over canonical bytes, the hexadecimal SHA-256 of canonical bytes, and json.dumps
-- and json.loads; Patterns has
-- what the regular expressions of the instruction gate find; Conversions has Python's float, int and
-- str of a JSON value; node_id is the SHA-256 of a DID, and query the callback of a DHT lookup. Where a theorem needs that a digest
-- commits to its content, that is a named hypothesis. Times, costs and risks are natural numbers of
-- some smallest unit (risks in tenths), so a clock never goes below 0; Python's floats and negative
-- numbers are not modelled, but for the product of a cooldown with a power of two, which raises from
-- 2 ** 1024 on; the backoff of a dialogue message is without that limit, which only more than a
-- thousand attempts at one message would reach. The loops are structural recursions over lists, and the rounds of a DHT
-- lookup over their maximum, which is the source's own; the loop of topo_order has as many rounds
-- as there are goals, which is enough, since every round moves one goal to the order.
-- Locks are not modelled: each operation is one step. The wording of reasons is not modelled.
--
-- Not modelled. Making signatures, key files, databases, sockets, processes and user interfaces; in
-- the journal the rows stand for the SQLite table, whose INTEGER columns raise past 64 bits, and an
-- event has the types of its columns, so an integer ts, which SQLite would turn into a float, is not an
-- event; in the
-- mutiny ledger the verification of an incident's evidence comes before the model. The packages
-- agent (but for the view that its loop hands to the gate), fleet, node, console and desktop, the rest of transport and of dialogue, and the code in other
-- languages are left out. A dialogue session's messages are the bytes of an envelope, which is sealed and
-- opened outside the model, and the callbacks that it makes are results.
pub mod Prelude
pub mod Identity
pub mod Inference
pub mod Citadel
pub mod Transport
pub mod Dialogue
pub mod Tests
