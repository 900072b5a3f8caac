-- ===== src/Transport/Endpoint.antt =====
-- The endpoints of a peer: transport/secdogie_transport/endpoint.py.
use secdogie.Prelude.{
  ltb, nat_beq, if◌then◌else◌, string_eq, nat_eq, ◌>>=◌, ◌>>◌, guard, ℕ, String, Bool, ◌&&◌, Option,
  none, some, List, [], ◌∷◌,
}

-- _KIND_PRIORITY; `none` for a kind that is not one
unfoldable pub kind_priority : String → Option ℕ
kind_priority kind =
    if string_eq.beq kind "public"
    then some 0
    else if string_eq.beq kind "observed"
    then some 1
    else if string_eq.beq kind "local"
    then some 2
    else if string_eq.beq kind "candidate"
    then some 3
    else none

-- an endpoint, with the priority of its kind
pub record Endpoint : Type 0 where
  pub kind : String
  pub host : String
  pub port : ℕ
  pub priority : ℕ

-- `Endpoint(kind, host, port)`; `none` where it raises
unfoldable pub make_endpoint : String → String → ℕ → Option Endpoint
make_endpoint kind host port = do
  priority ← kind_priority kind
  guard (ltb 0 port && ltb port 65536)
  some (record { kind = kind; host = host; port = port; priority = priority })

abbrev pub same_address : Endpoint → Endpoint → Bool
same_address e f = string_eq.beq e.host f.host && nat_beq e.port f.port

-- `EndpointSet.add`: an address keeps its place and its most reachable kind
unfoldable pub add_endpoint : Endpoint → List Endpoint → List Endpoint
add_endpoint e [] = e ∷ []
add_endpoint e (f ∷ es) =
    if same_address f e
    then (if ltb e.priority f.priority then e else f) ∷ es
    else f ∷ add_endpoint e es
