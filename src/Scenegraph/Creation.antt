-- ===== src/Scenegraph/Creation.antt =====
-- createNetworkedEntity of src/EnkiNet/Scenegraph.cpp: an entity and its children are announced to the
-- clients, or asked for at the server. On a host a packet that is sent reaches the local client at once;
-- onSpawn of an entity does not create networked entities there.
pub mod Family
pub mod Endless
pub mod Numbering
use enki_net.Common.{
  ℕ, zero, suc, ◌+◌, ◌%◌, ◌^◌, Bool, true, false, ◌&&◌, ◌||◌, List, [], ◌∷◌, ◌++◌, Option, none,
  some, ◌==◌, ◌===◌, if◌then◌else◌, Outcome, ok, fault, ◌>>=◌,
}
use enki_net.Packet.{Packet, PacketHeader, of_header, type_code, entity_creation}
use enki_net.Packet.Codec.{put_packet}
use enki_net.Entity.{EntityInfo, put_info}
use enki_net.Scenegraph.{Scene, ChildInfo}

abbrev pub creation_header : PacketHeader
creation_header = record { type = type_code entity_creation; time_sent = 0 }

-- The packet of a creation; `null` says whether data() of an empty vector is null.
unfoldable pub creation_packet : Bool → EntityInfo → Packet → Outcome Packet
creation_packet null info spawn =
    put_info info (of_header creation_header) >>= put_packet null spawn

-- The network manager's server, whether there is one, and the id of its client.
pub record Peers : Type 0 where
  pub server : Bool
  pub client : Option ℕ

abbrev pub has_peer : Peers → Bool
has_peer peers = peers.server || (elim peers.client [ none ↦ false | some id ↦ true ])

abbrev pub own_id : Peers → ℕ
own_id peers = elim peers.client [ none ↦ 1 | some id ↦ id ]

-- The loop over the children, for a function that creates one of them.
unfoldable pub create_children :
    (EntityInfo → Packet → ℕ → Outcome (ℕ × List Packet))
    → List ChildInfo
    → ℕ
    → ℕ
    → ℕ
    → Outcome (ℕ × List Packet)
create_children create [] owner parent id = ok (id, [])
create_children create (c ∷ cs) owner parent id = do
  let info : EntityInfo = record {
    type = c.type;
    name = c.name;
    id = 0;
    owner_id = owner;
    parent_id = parent;
  }
  (id', sent) ← create info c.spawn_info id
  (id'', more) ← create_children create cs owner parent id'
  ok (id'', sent ++ more)

module _ {G : Type 0} (null : Bool) (peers : Peers) (s : Scene G) where
  -- The owner that is filled in.
  abbrev pub with_owner : EntityInfo → EntityInfo
  with_owner info =
      if (info.owner_id == 0) && s.network_ready
      then record info { owner_id = own_id peers }
      else info

  -- What is sent for one entity.
  unfoldable pub announce : EntityInfo → Packet → Outcome (List Packet)
  announce info spawn =
      if s.network_ready && has_peer peers
      then (creation_packet null info spawn >>= λ p. ok (p ∷ []))
      else ok []

  -- createNetworkedEntity, from a value of the counter ID to the next, with what is sent in order. With
  -- no fuel left the recursion has filled the stack.
  unfoldable pub create_networked : ℕ → EntityInfo → Packet → ℕ → Outcome (ℕ × List Packet)
  unfolding create_children
  create_networked zero info spawn id = fault
  create_networked (suc fuel) info spawn id =
      if (info.name === []) || (info.type === [])
      then ok (id, [])
      else elim (s.builders info.type) [
        | none ↦ ok (id, [])
        | some build ↦
            let fresh = peers.server && (info.id == 0) in
            let own = if fresh then id else info.id in
            let next = if fresh then (id + 1) % 2 ^ 32 else id in
            create_children (create_networked fuel) (s.child_types info.type) info.owner_id own next
            >>= λ (id', sent). announce (with_owner (record info { id = own })) spawn >>= λ last.
                ok (id', sent ++ last)
      ]

-- createNetworkedEntity on a scene.
unfoldable pub create_networked_entity :
    {G : Type 0}
    → Bool
    → Peers
    → ℕ
    → EntityInfo
    → Packet
    → Scene G
    → Outcome (Scene G × List Packet)
create_networked_entity null peers fuel info spawn s = do
  (id, sent) ← create_networked null peers s fuel info spawn s.next_id
  ok (record s { next_id = id }, sent)
