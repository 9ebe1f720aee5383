-- ===== src/Scenegraph/Delivery.antt =====
-- Which programs run a function that is called on an entity.
use enki_net.Common.{
  ℕ, ◌^◌, ◌≤◌, ◌<◌, ◌≡◌, refl, sym, ap, ◌∙◌, Bool, true, false, not, ◌&&◌, ◌||◌, List, [], ◌∷◌,
  ◌++◌, length, some, ◌==◌, &&-false, &&-true, if◌then◌else◌, Outcome, ok, arith,
}
use enki_net.Packet.{Packet, set_header}
use enki_net.Entity.{EntityInfo}
use enki_net.Rpc.{
  RpcType, master, remote, remote_and_local, master_and_remote, local, all, RpcManager, EntityRpc,
  rpc_info, entity_rpc_type,
}
use enki_net.Packet.Laws.{Ready, Ready-advance, advance}
use enki_net.Packet.RoundTrip.{string_bytes, get_string-Reads}
use enki_net.Entity.Laws.{IsInfo, info_bytes, info_eq_iff, get_info-Reads}
use enki_net.Server.{Effect}
use enki_net.Server.Host
use enki_net.Server.Sends.{member, Sends, stamped, host-Sends_all}
use enki_net.Scenegraph.{Scene, SceneEntity, lookup}
use enki_net.Scenegraph.Routing.{
  Route, nobody, everyone, only, all_except, route_call, route_rpc, send_route, serve_rpc,
}

-- Whether a route goes to the client `x`.
abbrev pub routed : Route → ℕ → Bool
routed nobody x = false
routed everyone x = true
routed (only c) x = c == x
routed (all_except c) x = not (x == c)

-- Whether the client `x` runs the function when `caller` calls it: the caller does what RPCInfo says, and
-- another client runs it if the caller sends it and the server passes it on to this client.
abbrev pub runs : RpcType → ℕ → ℕ → ℕ → Bool
runs t owner caller x =
    let todo = rpc_info t (caller == owner) in
    if x == caller then todo.0 else (todo.1 && routed (route_call t owner caller) x)

-- What the comments on RPCType in src/EnkiNet/Networking/RPC.hpp promise.
abbrev pub promised : RpcType → ℕ → ℕ → ℕ → Bool
promised master owner caller x = x == owner
promised remote owner caller x = (caller == owner) && not (x == owner)
promised remote_and_local owner caller x = caller == owner
promised master_and_remote owner caller x = not (x == caller)
promised local owner caller x = x == caller
promised all owner caller x = true

-- For every type of call, owner, caller and client, what RPCInfo tells the caller to do together with
-- the route that the server takes for a call that is sent makes the client run the function exactly if
-- the comments on the type promise it.
pub runs-promised :
    (t : RpcType) (owner caller x : ℕ) → runs t owner caller x ≡ promised t owner caller x
unfolding rpc_info route_call
runs-promised master owner caller x = ground arith
runs-promised remote owner caller x = ground arith
runs-promised remote_and_local owner caller x = ground arith
runs-promised master_and_remote owner caller x = ground arith
runs-promised local owner caller x = ground arith
runs-promised all owner caller x = ground arith

-- What the server passes on of a call that is sent is what is promised to the others.
routed-promised :
    (t : RpcType) (owner caller x : ℕ)
    → (rpc_info t (caller == owner)).1 ≡ true
    → routed (route_call t owner caller) x ≡ (not (x == caller) && promised t owner caller x)
unfolding rpc_info route_call
routed-promised master owner caller x h = ground arith
routed-promised remote owner caller x h = ground arith
routed-promised remote_and_local owner caller x h = ground arith
routed-promised master_and_remote owner caller x h = ground arith
routed-promised local owner caller x h = ground arith
routed-promised all owner caller x h = ground arith

-- The clients of a host, the local one counted.
abbrev pub is_client : List ℕ → ℕ → Bool
is_client clients x = member x clients || (x == 1)

pub Sends-ext :
    (now : ℕ) (clients : List ℕ) (who who' : ℕ → Bool) (p : Packet) (sent : Outcome (List Effect))
    → ((x : ℕ) → who x ≡ who' x)
    → Sends now clients who p sent
    → Sends now clients who' p sent
Sends-ext now clients who who' p sent same (es, e, got) =
    (es, e, λ x. got x ∙ ap (λ b. if b then stamped now p ∷ [] else []) (same x))

pub send_route-Sends :
    (now : ℕ) (clients : List ℕ) (route : Route) (p : Packet)
    → p.bytes_written ≤ length p.bytes
    → member 1 clients ≡ false
    → Sends now clients
        (λ x. is_client clients x && routed route x)
        p
        (send_route now clients route p)
unfolding send_route
send_route-Sends now clients nobody p h apart = ([], refl, λ x. rw (&&-false (is_client clients x)))
send_route-Sends now clients everyone p h apart =
    Sends-ext now clients _ _ p (Host.send_to_all now clients p)
      (λ x. sym (&&-true (is_client clients x)))
      (host-Sends_all now clients 1 (λ x. true) p h apart).1
send_route-Sends now clients (only c) p h apart =
    (host-Sends_all now clients c (λ x. true) p h apart).0
send_route-Sends now clients (all_except c) p h apart =
    (host-Sends_all now clients c (λ x. true) p h apart).3

module _ {S G : Type 0} (m : RpcManager S) (s : Scene G) (r : EntityRpc S) (e : SceneEntity G) where
  entity_rpc_type_lem :
      (type name : List ℕ)
      → m.entity_rpcs type name ≡ some r
      → entity_rpc_type type name m ≡ ok r.rpctype
  unfolding entity_rpc_type
  entity_rpc_type_lem type name known = rw (known, entity_rpc_type)

  -- The handler on the packet of a call for an entity that the server knows, with a function that is
  -- registered, finds the route for the owner and the sender.
  route_rpc_lem :
      (info : EntityInfo) (name bs : List ℕ) (p : Packet)
      → IsInfo info
      → length name < 256 ^ 8
      → m.entity_rpcs info.type name ≡ some r
      → lookup info.id s.entities ≡ some e
      → e.info ≡ info
      → Ready p (info_bytes info ++ (string_bytes name ++ bs))
      → route_rpc m s p
        ≡ ok (
          route_call r.rpctype info.owner_id p.info.sender_id,
          advance (advance p (length (info_bytes info))) (length (string_bytes name)),
        )
  unfolding route_rpc
  route_rpc_lem info name bs p valid short known there same ready =
      rw (get_info-Reads info valid p (string_bytes name ++ bs) ready) (
        rw (get_string-Reads name short p1 bs at_name)
          (rw (found, there, same, (info_eq_iff info info).1 refl)))
    where
      found : entity_rpc_type info.type name m ≡ ok r.rpctype
      found = entity_rpc_type_lem info.type name known

      p1 : Packet
      p1 = advance p (length (info_bytes info))

      at_name : Ready p1 (string_bytes name ++ bs)
      at_name = Ready-advance p (info_bytes info) (string_bytes name ++ bs) ready

  -- A host that gets the packet of a call, with its written bytes inside the buffer, for a registered
  -- function of an entity that it knows with the same info, from a caller whose RPCInfo says that the
  -- call is sent, passes the packet on, stamped, once to each of its clients but the caller to
  -- which the comments on the type of the call promise it, and to nobody else. No remote client has the id
  -- 1 of the local one.
  pub serve_rpc-Sends :
      (now : ℕ) (clients : List ℕ) (info : EntityInfo) (name bs : List ℕ) (p : Packet)
      → IsInfo info
      → length name < 256 ^ 8
      → m.entity_rpcs info.type name ≡ some r
      → lookup info.id s.entities ≡ some e
      → e.info ≡ info
      → Ready p (info_bytes info ++ (string_bytes name ++ bs))
      → p.bytes_written ≤ length p.bytes
      → member 1 clients ≡ false
      → (rpc_info r.rpctype (p.info.sender_id == info.owner_id)).1 ≡ true
      → Sends now clients
          (λ x.
            is_client clients x
            && (not (x == p.info.sender_id) && promised r.rpctype info.owner_id p.info.sender_id x))
          p
          (serve_rpc m s now clients p)
  unfolding serve_rpc set_header
  serve_rpc-Sends now clients info name bs p valid short known there same ready room apart away =
      let q = advance (advance p (length (info_bytes info))) (length (string_bytes name)) in
      let route = route_call r.rpctype info.owner_id p.info.sender_id in
      rw (route_rpc_lem info name bs p valid short known there same ready) (
        Sends-ext now clients _ _ q (send_route now clients route q)
          (λ x.
            ap (◌&&◌ (is_client clients x))
              (routed-promised r.rpctype info.owner_id p.info.sender_id x away))
          (send_route-Sends now clients route q room apart))
