-- ===== src/Scenegraph/Routing.antt =====
-- What the server's handler in src/EnkiNet/Scenegraph.cpp does with the packet of an entity call.
use enki_net.Common.{ℕ, List, [], none, some, ◌==◌, if◌then◌else◌, Outcome, ok, ◌>>=◌}
use enki_net.Packet.{Packet}
use enki_net.Packet.Codec.{get_string}
use enki_net.Entity.{get_info, info_eq}
use enki_net.Rpc.{
  RpcType, master, remote, remote_and_local, master_and_remote, local, all, RpcManager,
  entity_rpc_type,
}
use enki_net.Server.{Effect}
use enki_net.Server.Host
use enki_net.Scenegraph.{Scene, lookup}

-- To whom a packet is sent on.
pub data Route : Type 0 where
  nobody : Route
  everyone : Route
  only : ℕ → Route
  all_except : ℕ → Route

-- The tests on the type of the call, for an owner and a sender.
unfoldable pub route_call : RpcType → ℕ → ℕ → Route
route_call master owner sender = if owner == sender then nobody else only owner
route_call remote owner sender = if owner == sender then all_except sender else nobody
route_call remote_and_local owner sender = if owner == sender then all_except sender else nobody
route_call master_and_remote owner sender = all_except sender
route_call local owner sender = nobody
route_call all owner sender = all_except sender

-- The branch for ENTITY_RPC: what it reads, and the packet that it has then.
unfoldable pub route_rpc :
    {S G : Type 0} → RpcManager S → Scene G → Packet → Outcome (Route × Packet)
route_rpc m s p = do
  (info, q) ← get_info p
  (name, r) ← get_string q
  t ← entity_rpc_type info.type name m
  elim (lookup info.id s.entities) [
    | none ↦ ok (nobody, r)
    | some e ↦
        ok (if info_eq info e.info then route_call t info.owner_id p.info.sender_id else nobody, r)
  ]

-- The sends of a host for a route.
unfoldable pub send_route : ℕ → List ℕ → Route → Packet → Outcome (List Effect)
send_route now clients nobody p = ok []
send_route now clients everyone p = Host.send_to_all now clients p
send_route now clients (only c) p = Host.send_to_one now c p
send_route now clients (all_except c) p = Host.send_to_all_except now clients c p

-- The branch for ENTITY_RPC on a host.
unfoldable pub serve_rpc :
    {S G : Type 0} → RpcManager S → Scene G → ℕ → List ℕ → Packet → Outcome (List Effect)
unfolding route_rpc send_route
serve_rpc m s now clients p = do (route, q) ← route_rpc m s p; send_route now clients route q
