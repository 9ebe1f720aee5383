-- ===== src/Scenegraph/Serving.antt =====
-- The server's handler in src/EnkiNet/Scenegraph.cpp: what it changes, and which packets it sends to
-- whom, in order. A send of the server does not come back to this handler.
pub mod Authority
use enki_net.Common.{
  ℕ, ◌+◌, ◌%◌, ◌^◌, Bool, true, false, ◌&&◌, List, [], ◌∷◌, ◌++◌, map, none, some, ◌==◌,
  if◌then◌else◌, Outcome, ok, ◌>>=◌,
}
use enki_net.Packet.{
  Packet, PacketHeader, of_header, type_code, connected, entity_creation,
  entity_creation_on_connection, entity_update, entity_rpc, entity_deletion,
}
use enki_net.Packet.Codec.{get_number, get_packet}
use enki_net.Entity.{EntityInfo, put_info, get_info}
use enki_net.Rpc.{RpcManager}
use enki_net.Server.{Effect}
use enki_net.Scenegraph.{Scene, SceneEntity, lookup}
use enki_net.Scenegraph.Client.{Game}
use enki_net.Scenegraph.Creation.{Peers, create_networked_entity}
use enki_net.Scenegraph.Routing.{Route, everyone, only, all_except, route_rpc, send_route}

-- A packet and to whom it is sent.
abbrev pub Order : Type 0
Order = Route × Packet

abbrev pub to_everyone : Packet → Order
to_everyone p = (everyone, p)

abbrev pub connection_header : PacketHeader
connection_header = record { type = type_code entity_creation_on_connection; time_sent = 0 }

-- The sends of a host for orders, one after the other.
unfoldable pub carry_out : ℕ → List ℕ → List Order → Outcome (List Effect)
unfolding send_route
carry_out now clients [] = ok []
carry_out now clients ((route, p) ∷ os) = do
  sent ← send_route now clients route p
  more ← carry_out now clients os
  ok (sent ++ more)

module _ {S G : Type 0} (null : Bool) (game : Game G) (m : RpcManager S) (peers : Peers)
    (fuel : ℕ) where
  -- The packet that shows an entity to a client that has connected.
  unfoldable pub snapshot : SceneEntity G → Outcome Packet
  unfolding put_info
  snapshot e = put_info e.info (of_header connection_header) >>= game.serialize_on_connection e.self

  -- The loop over the entities, from the last key to the first.
  unfoldable pub snapshots : List (ℕ × SceneEntity G) → Outcome (List Packet)
  unfolding snapshot
  snapshots [] = ok []
  snapshots ((k, e) ∷ rest) = do later ← snapshots rest; p ← snapshot e; ok (later ++ p ∷ [])

  -- sendAllNetworkedEntitiesToClient
  unfoldable pub send_all_networked_entities : ℕ → Scene G → Outcome (List Order)
  send_all_networked_entities c s =
      if s.network_ready && peers.server
      then (snapshots s.entities >>= λ ps. ok (map (λ p. (only c, p)) ps))
      else ok []

  -- ENTITY_CREATION: the sender becomes the owner.
  unfoldable pub serve_creation : Packet → Scene G → Outcome (Scene G × List Order)
  serve_creation p s = do
    (info, q) ← get_info p
    (spawn, r) ← get_packet null q
    let own : EntityInfo = record info { owner_id = p.info.sender_id }
    (s', sent) ← create_networked_entity null peers fuel own spawn s
    ok (s', map to_everyone sent)

  -- ENTITY_DELETION: passed on if the sender is the owner.
  unfoldable pub serve_deletion : Packet → Scene G → Outcome (List Order)
  serve_deletion p s = do
    (id, q) ← get_number 4 p
    elim (lookup id s.entities) [
      | none ↦ ok []
      | some e ↦ ok (if e.info.owner_id == p.info.sender_id then to_everyone q ∷ [] else [])
    ]

  -- The whole handler.
  unfoldable pub server_handler : Packet → Scene G → Outcome (Scene G × List Order)
  server_handler p s =
      let type = p.header.type in
      if type == type_code entity_creation
      then serve_creation p s
      else if type == type_code entity_creation_on_connection
      then ok (s, [])
      else if type == type_code connected
      then (send_all_networked_entities p.info.sender_id s >>= λ os. ok (s, os))
      else if type == type_code entity_update
      then ok (s, (all_except p.info.sender_id, p) ∷ [])
      else if type == type_code entity_rpc
      then (route_rpc m s p >>= λ o. ok (s, o ∷ []))
      else if type == type_code entity_deletion
      then (serve_deletion p s >>= λ os. ok (s, os))
      else ok (s, [])
