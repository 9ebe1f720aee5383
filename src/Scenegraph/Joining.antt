-- ===== src/Scenegraph/Joining.antt =====
-- A client that joins: from sendAllNetworkedEntitiesToClient on the server to the entities of the client.
mod Receive
unfoldable pub use Receive.*
use enki_net.Common.{
  ℕ, ◌^◌, ◌≤◌, ◌<◌, ◌≡◌, ◌≢◌, refl, sym, ap, ◌∙◌, Bool, true, false, ◌||◌, ◌&&◌, List, [], ◌∷◌,
  ◌++◌, map, Option, none, some, ◌==◌, ==_refl, ==_ne, ◌===◌, if◌then◌else◌, length, Outcome, ok,
  fault, ◌>>=◌, ℕ_discrete, bind-ok,
}
use mathlib.Core.Path.{transport}
use enki_net.Packet.{
  empty, Packet, PacketHeader, empty, of_header, type_code, entity_creation_on_connection,
  set_header, sent_bytes, of_data,
}
use enki_net.Packet.Laws.{Writes, Writes-bind, Ready, Ready-advance, advance}
use enki_net.Packet.Channel.{arrives}
use enki_net.Packet.Transmission.{new_packet_room}
use enki_net.Entity.{EntityInfo, put_info}
use enki_net.Entity.Laws.{IsInfo, info_bytes, put_info-Writes, get_info-Reads}
use enki_net.Rpc.{RpcManager}
use enki_net.Scenegraph.{Scene, SceneEntity, lookup, store, create_entity}
use enki_net.Scenegraph.Client.{Game, update_self, receive_creation_on_connection, client_handler}
use enki_net.Scenegraph.Creation.{Peers}
use enki_net.Scenegraph.Replication.{receive_all}
use enki_net.Scenegraph.Routing.{only}
use enki_net.Scenegraph.Serving.{
  connection_header, snapshot, snapshots, send_all_networked_entities,
}
use enki_net.Scenegraph.Store.{lookup-store, lookup-store_other}

-- Where the server has an entity the client has a copy, and else what it had.
abbrev pub overlay :
    {G : Type 0} → Option (SceneEntity G) → Option (SceneEntity G) → Option (SceneEntity G)
overlay none old = old
overlay (some e) old = some (copy_of e)

-- The entities stand under their ids, and the client can create all of them.
abbrev pub AllJoinable :
    {G : Type 0}
    → (Packet → G → Outcome G)
    → (List ℕ → Option (EntityInfo → G))
    → List (ℕ × SceneEntity G)
    → Type 0
AllJoinable on_spawn builders [] = Unit {0}
AllJoinable on_spawn builders ((k, e) ∷ rest) =
    (k ≡ e.info.id) × IsJoinable on_spawn empty builders e.info × AllJoinable on_spawn builders rest

overlay_lem :
    {G : Type 0} (k j : ℕ) (e : SceneEntity G) (rest : List (ℕ × SceneEntity G))
    (here old : Option (SceneEntity G))
    → k ≡ e.info.id
    → here ≡ overlay (lookup j rest) old
    → (if j == e.info.id then some (copy_of e) else here) ≡ overlay (lookup j ((k, e) ∷ rest)) old
unfolding lookup
overlay_lem k j e rest here old same seen = elim (ℕ_discrete j e.info.id) [
  | yes at ↦ let found : k ≡ j = same ∙ sym at in rw (at, same, ==_refl e.info.id) refl
  | no ne ↦
      let apart : k ≢ j = λ h. ne (sym h ∙ same) in rw (==_ne j e.info.id ne, ==_ne k j apart) seen
]

module _ {S G : Type 0} (null : Bool) (game : Game G) (m : RpcManager S) (peers : Peers) (fuel : ℕ)
    (whole : G → List ℕ) (now : ℕ) (fits : now < 2 ^ 32) (writes : WritesWhole null game whole)
    (reads : ReadsWhole null game whole) where
  -- A list of packets after another one.
  receive_all-append :
      (ps qs : List Packet) (c t : Scene G)
      → receive_all null game now ps c ≡ ok t
      → receive_all null game now (ps ++ qs) c ≡ receive_all null game now qs t
  unfolding receive_all
  receive_all-append [] qs c t h = let same : c ≡ t = cc h in ap (receive_all null game now qs) same
  receive_all-append (p ∷ ps) qs c t h =
      let (a, arrived, h1) =
        bind-ok
          (sent_bytes (set_header (record { type = p.header.type; time_sent = now }) p) >>= of_data)
          _ _ h in
      let (d, handled, h2) = bind-ok (client_handler null game a c) _ _ h1 in
      rw (arrived, handled) (receive_all-append ps qs d t h2)

  one_joined :
      (e : SceneEntity G) (c : Scene G)
      → IsJoinable game.on_spawn empty c.builders e.info
      → (p : Packet) × (snapshot null game m peers fuel e ≡ ok p)
        × (after : Scene G) × (receive_all null game now (p ∷ []) c ≡ ok after)
        × Puts null game whole e c after
  unfolding snapshot receive_all
  one_joined e c j =
      let w =
        Writes-bind (put_info e.info (of_header connection_header))
          (game.serialize_on_connection e.self) (of_header connection_header) (info_bytes e.info)
          (whole e.self)
          (put_info-Writes e.info (of_header connection_header) (new_packet_room connection_header))
          (writes e.self) in
      let p = w.0 in
      let typed : p.header.type ≡ type_code entity_creation_on_connection =
        unfold of_header in ap (λ (h : PacketHeader). h.type) w.2.same_header in
      let a =
        arrives connection_header (info_bytes e.info ++ whole e.self) p
          (record { type = p.header.type; time_sent = now }) w.2 fits in
      let joined =
        client_handler-joined null game whole e a.packet c reads j
          (ap (λ (h : PacketHeader). h.type) a.same_header ∙ typed) a.ready in
      (p, w.1, joined.0, rw (a.sent, a.built, joined.1) refl, joined.2)

  all_joined :
      (es : List (ℕ × SceneEntity G)) (c : Scene G)
      → AllJoinable game.on_spawn c.builders es
      → (ps : List Packet) × (snapshots null game m peers fuel es ≡ ok ps)
        × (after : Scene G) × (receive_all null game now ps c ≡ ok after)
        × (after.builders ≡ c.builders)
        × ((j : ℕ) → lookup j after.entities ≡ overlay (lookup j es) (lookup j c.entities))
  unfolding snapshots
  all_joined [] c each =
      ([], refl, c, (unfold receive_all in refl), refl, λ j. unfold lookup in refl)
  all_joined ((k, e) ∷ rest) c each =
      let (ps, shown, t, got, same, seen) = all_joined rest c each.2 in
      let (p, last, after, put, seen') = one_joined e t (
        transport
          (ap (λ (b : List ℕ → Option (EntityInfo → G)). IsJoinable game.on_spawn empty b e.info)
            (sym same))
          each.1) in
      (
        ps ++ p ∷ [],
        rw (shown, last) refl,
        after,
        receive_all-append ps (p ∷ []) c t got ∙ put,
        seen'.0 ∙ same,
        λ j.
            seen'.1 j
            ∙ overlay_lem k j e rest (lookup j t.entities) (lookup j c.entities) each.0 (seen j),
      )

  -- `now` is the time of sending. If serializeOnConnection appends the state of an entity and
  -- deserializeOnConnection takes it over, and the client can create each of the server's entities, onSpawn included, then
  -- sendAllNetworkedEntitiesToClient on a server whose scene is ready sends the client packets after which it has a copy of
  -- each entity of the server, with its info and its state, under the same id, and else what it had.
  pub send_all_networked_entities-Joins :
      (client : ℕ) (s c : Scene G)
      → s.network_ready ≡ true
      → peers.server ≡ true
      → AllJoinable game.on_spawn c.builders s.entities
      → (ps : List Packet) × (send_all_networked_entities null game m peers fuel client s
          ≡ ok (map (λ p. (only client, p)) ps))
        × (after : Scene G) × (receive_all null game now ps c ≡ ok after)
        × ((j : ℕ) → lookup j after.entities ≡ overlay (lookup j s.entities) (lookup j c.entities))
  unfolding send_all_networked_entities
  send_all_networked_entities-Joins client s c ready serving each =
      let (ps, shown, after, got, same, seen) = all_joined s.entities c each in
      let on : s.network_ready && peers.server ≡ true = rw (ready, serving) refl in
      (ps, rw (on, shown) refl, after, got, seen)
