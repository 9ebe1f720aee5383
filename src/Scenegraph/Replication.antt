-- ===== src/Scenegraph/Replication.antt =====
-- From createNetworkedEntity to the entities of the clients: what a server announces is what the
-- clients create, and what a client asks for is what the server announces.
pub mod Members
use enki_net.Common.{
  Option, throws, fault, ℕ, ◌+◌, ◌^◌, ◌≤◌, ◌<◌, ◌≡◌, refl, ap, ◌∙◌, Bool, true, List, [], ◌∷◌, ◌++◌,
  map, append-nil, length, Outcome, ok, ◌>>=◌,
}
use enki_net.Packet.{
  Packet, of_header, PacketHeader, type_code, entity_creation, set_header, sent_bytes, of_data,
}
use enki_net.Packet.Laws.{Ready, Ready-advance, advance}
use enki_net.Packet.Channel.{received, arrives}
use enki_net.Packet.RoundTrip.Nested.{get_packet-Reads}
use enki_net.Packet.RoundTrip.Sequences.{Fits, vector_bytes}
use enki_net.Entity.{EntityInfo}
use enki_net.Entity.Laws.{IsInfo, info_bytes, get_info-Reads}
use enki_net.Rpc.{RpcManager}
use enki_net.Scenegraph.{Scene, create_entity}
use enki_net.Scenegraph.Client.{Game, receive_creation, client_handler}
use enki_net.Scenegraph.Creation.{Peers, creation_header, create_networked, create_networked_entity}
use enki_net.Scenegraph.Creation.Family.{Member, creation_bytes, Announces, family_size}
use enki_net.Scenegraph.Creation.Numbering.{Made, Ranked, family_owner, create_networked-Made}
use enki_net.Scenegraph.Serving.{to_everyone, serve_creation, server_handler}

-- What a packet can carry of a spawn packet's buffer.
abbrev pub IsSpawn : List ℕ → Type 0
IsSpawn bytes = (8 ≤ length bytes) × (length bytes < 256 ^ 8) × Fits 1 bytes

abbrev pub Deliverable : List Member → Type 0
Deliverable [] = Unit {0}
Deliverable ((info, spawn) ∷ ms) = IsInfo info × IsSpawn spawn.bytes × Deliverable ms

-- The creations of the members, one after the other.
abbrev pub create_all : {G : Type 0} → Game G → List Member → Scene G → Outcome (Scene G)
create_all game [] s = ok s
create_all game ((info, spawn) ∷ ms) s =
    create_entity game.on_spawn info (received spawn.bytes) s >>= λ (created, t).
    create_all game ms t

-- What comes after a creation.
created_then :
    {G : Type 0} (k l : Scene G → Outcome (Scene G))
    → ((t : Scene G) → k t ≡ l t)
    → (r : Outcome (Option ℕ × Scene G))
    → ((r >>= λ (created, t). ok t) >>= k) ≡ (r >>= λ (created, t). l t)
created_then k l same (ok (created, t)) = same t
created_then k l same (throws x) = refl
created_then k l same fault = refl

module _ {G : Type 0} (null : Bool) (game : Game G) where
  -- The packets, with their time of sending, go through the transport to a client's handler, in order.
  unfoldable pub receive_all : ℕ → List Packet → Scene G → Outcome (Scene G)
  receive_all now [] s = ok s
  receive_all now (p ∷ ps) s =
      sent_bytes (set_header (record { type = p.header.type; time_sent = now }) p)
      >>= of_data
      >>= λ a. client_handler null game a s >>= receive_all now ps

  client_handler-creation :
      (info : EntityInfo) (bytes bs : List ℕ) (p : Packet) (s : Scene G)
      → IsInfo info
      → IsSpawn bytes
      → p.header.type ≡ type_code entity_creation
      → Ready p (info_bytes info ++ (vector_bytes 1 bytes ++ bs))
      → client_handler null game p s
        ≡ (create_entity game.on_spawn info (received bytes) s >>= λ (created, t). ok t)
  unfolding client_handler receive_creation
  client_handler-creation info bytes bs p s valid spawn type ready =
      rw
        (
          get_info-Reads info valid p (vector_bytes 1 bytes ++ bs) ready,
          get_packet-Reads null bytes spawn.0 spawn.1 spawn.2 (advance p (length (info_bytes info)))
              bs (Ready-advance p (info_bytes info) (vector_bytes 1 bytes ++ bs) ready),
          type,
        )
        refl

  -- The packets that announce members, sent in order, make a client run createEntity for these members, in order,
  -- each with the bytes of its spawn packet.
  pub receive_all-create_all :
      (now : ℕ) (ps : List Packet) (ms : List Member) (s : Scene G)
      → now < 2 ^ 32
      → Announces ps ms
      → Deliverable ms
      → receive_all now ps s ≡ create_all game ms s
  unfolding receive_all
  receive_all-create_all now [] [] s fits sent each = refl
  receive_all-create_all now [] (m ∷ ms) s fits sent each = absurd sent
  receive_all-create_all now (p ∷ ps) [] s fits sent each = absurd sent
  receive_all-create_all now (p ∷ ps) (m ∷ ms) s fits sent each =
      let stamped : PacketHeader = record { type = p.header.type; time_sent = now } in
      let typed : p.header.type ≡ type_code entity_creation =
        unfold of_header in ap (λ (h : PacketHeader). h.type) sent.0.same_header in
      let a = arrives creation_header (creation_bytes m.0 m.1) p stamped sent.0 fits in
      let ready : Ready a.packet (info_bytes m.0 ++ (vector_bytes 1 m.1.bytes ++ [])) =
        rw (append-nil (vector_bytes 1 m.1.bytes)) a.ready in
      let created =
        client_handler-creation m.0 m.1.bytes [] a.packet s each.0 each.1
          (ap (λ (h : PacketHeader). h.type) a.same_header ∙ typed) ready in
      rw (a.sent, a.built, created)
        (created_then (receive_all now ps) (create_all game ms)
          (λ t. receive_all-create_all now ps ms t fits sent.1 each.2)
          (create_entity game.on_spawn m.0 (received m.1.bytes) s))

module _ {S G : Type 0} (null : Bool) (game : Game G) (m : RpcManager S) (peers : Peers) (fuel : ℕ)
    (s : Scene G) (ready : s.network_ready ≡ true) (serving : peers.server ≡ true)
    (rank : List ℕ → ℕ) (ranked : (t : List ℕ) → Ranked rank (rank t) (s.child_types t)) where
  -- A server that gets the packet of a creation, for an info with the id 0, whose family fits behind its
  -- counter of ids, numbers the family from this counter on, makes the sender the owner of all members, and sends
  -- the packets that announce the members to everyone.
  pub server_handler-Made :
      (info : EntityInfo) (bytes bs : List ℕ) (p : Packet)
      → IsInfo info
      → IsSpawn bytes
      → info.id ≡ 0
      → rank info.type < fuel
      → s.next_id + family_size s fuel info.type info.name < 2 ^ 32
      → p.header.type ≡ type_code entity_creation
      → Ready p (info_bytes info ++ (vector_bytes 1 bytes ++ bs))
      → (made : Made s.next_id
          (family_size s fuel info.type info.name)
          info.parent_id
          (family_owner s.network_ready peers p.info.sender_id)
          (create_networked null peers s fuel
            (record info { owner_id = p.info.sender_id })
            (received bytes)
            s.next_id))
        × (server_handler null game m peers fuel p s
            ≡ ok (
              record s { next_id = s.next_id + family_size s fuel info.type info.name },
              map to_everyone made.sent,
            ))
  unfolding server_handler serve_creation create_networked_entity
  server_handler-Made info bytes bs p valid spawn zero_id low fits type at = (
    made,
    rw
        (
          get_info-Reads info valid p (vector_bytes 1 bytes ++ bs) at,
          get_packet-Reads null bytes spawn.0 spawn.1 spawn.2 (advance p (length (info_bytes info)))
              bs (Ready-advance p (info_bytes info) (vector_bytes 1 bytes ++ bs) at),
          type,
          made.returns,
        )
        refl,
  )
    where
      own : EntityInfo
      own = record info { owner_id = p.info.sender_id }

      made :
          Made s.next_id
            (family_size s fuel info.type info.name)
            info.parent_id
            (family_owner s.network_ready peers p.info.sender_id)
            (create_networked null peers s fuel own (received bytes) s.next_id)
      made =
          create_networked-Made null peers s ready serving rank ranked fuel own (received bytes)
            s.next_id low zero_id spawn.0 fits
