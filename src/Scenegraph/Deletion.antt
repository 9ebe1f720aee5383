-- ===== src/Scenegraph/Deletion.antt =====
-- From deleteEntity on a server to the end of the update in which a client erases the entity.
use enki_net.Common.{
  ℕ, ◌+◌, ◌^◌, ◌<◌, ◌≡◌, ◌≢◌, refl, ap, ◌∙◌, Bool, true, false, List, [], ◌∷◌, ◌++◌, append-nil,
  Option, none, some, ltb→lt, ◌==◌, ==_iff, Outcome, ok, Bool-cases, inl, inr, arith,
}
use enki_net.Packet.{le_bytes, Packet, PacketHeader, of_header, type_code, entity_deletion}
use enki_net.Packet.Codec.{put_number}
use enki_net.Packet.Laws.{Ready, Writes}
use enki_net.Packet.Channel.{Arrives, arrives}
use enki_net.Packet.Transmission.{new_packet_room}
use enki_net.Packet.RoundTrip.{put_number-Writes, get_number-Reads}
use enki_net.Entity.{is_negative}
use enki_net.Scenegraph.{
  Scene, SceneEntity, lookup, store, signed_ltb, delete_entity, erase_removed,
}
use enki_net.Scenegraph.Client.{Game, receive_deletion, client_handler}
use enki_net.Scenegraph.Replication.{receive_all}
use enki_net.Scenegraph.Store.{rank, Sorted, IsScene}

module _ {G : Type 0} where
  -- Below the lowest key there is nothing.
  pub lookup-erase_below :
      (lo top id : ℕ) (es : List (ℕ × SceneEntity G))
      → rank id < lo
      → Sorted lo top es
      → lookup id (erase_removed es) ≡ none
  unfolding lookup erase_removed
  lookup-erase_below lo top id [] h o = refl
  lookup-erase_below lo top id ((k, x) ∷ rest) h o =
      let later = lookup-erase_below (rank k + 1) top id rest (omega (arith, o.0)) o.4 in
      ground (arith, h, o.0, later)

  -- What is stored with the mark is gone after the erasing.
  lookup-erase_marked :
      (lo top id : ℕ) (e : SceneEntity G) (es : List (ℕ × SceneEntity G))
      → e.remove ≡ true
      → Sorted lo top es
      → lookup id (erase_removed (store id e es)) ≡ none
  unfolding lookup erase_removed store
  lookup-erase_marked lo top id e [] marked o = rw marked refl
  lookup-erase_marked lo top id e ((k, x) ∷ rest) marked o = elim (Bool-cases (k == id)) [
    | inl at ↦
        let eq : k ≡ id = (==_iff k id).0 at in
        rw (at, marked) (lookup-erase_below (rank k + 1) top id rest (rw eq (omega arith)) o.4)
    | inr ne ↦ elim (Bool-cases (signed_ltb id k)) [
      | inl lt ↦
          rw (ne, lt, marked)
            (lookup-erase_below (rank k) top id ((k, x) ∷ rest) (ltb→lt (rank id) (rank k) lt)
              (omega arith, o.1, o.2, o.3, o.4))
      | inr ge ↦
          rw (ne, ge)
            (ground (arith, ne, lookup-erase_marked (rank k + 1) top id e rest marked o.4))
    ]
  ]

  -- The others are erased or kept as without it.
  lookup-erase_other :
      (j id : ℕ) (e : SceneEntity G) (es : List (ℕ × SceneEntity G))
      → j ≢ id
      → lookup j (erase_removed (store id e es)) ≡ lookup j (erase_removed es)
  unfolding lookup erase_removed store
  lookup-erase_other j id e [] ne = ground (arith, ne)
  lookup-erase_other j id e ((k, x) ∷ rest) ne =
      ground (arith, ne, lookup-erase_other j id e rest ne)

abbrev pub deletion_header : PacketHeader
deletion_header = record { type = type_code entity_deletion; time_sent = 0 }

-- What deleteEntity for `id` on a server with the scene `s` does, at the time `now`, to a client with the
-- scene `c`.
pub record Deleted {G : Type 0} (null : Bool) (game : Game G) (now id : ℕ) (s c : Scene G) (j : ℕ)
    : Type 0 where
  pub packet : Packet
  pub after : Scene G
  pub sends : delete_entity id s ≡ ok (packet ∷ [], s)
  pub marks : receive_all null game now (packet ∷ []) c ≡ ok after
  pub gone : lookup id (erase_removed after.entities) ≡ none
  pub others : lookup j (erase_removed after.entities) ≡ lookup j (erase_removed c.entities)

-- The handler on a packet that begins with the id of an entity that is there.
client_handler-deletion :
    {G : Type 0} (null : Bool) (game : Game G) (id : ℕ) (c : Scene G) (e : SceneEntity G)
    (a : Packet)
    → id < 2 ^ 32
    → a.header.type ≡ type_code entity_deletion
    → Ready a (le_bytes 4 id)
    → lookup id c.entities ≡ some e
    → client_handler null game a c ≡ (
        let marked : SceneEntity G = record e { remove = true } in
        ok (record c { entities = store id marked c.entities }))
unfolding client_handler receive_deletion
client_handler-deletion {G} null game id c e a small type at there =
    let ready : Ready a (le_bytes 4 id ++ []) = rw append-nil at in
    let chosen : client_handler null game a c ≡ receive_deletion null game a c = rw type refl in
    chosen ∙ rw (get_number-Reads 4 id small a [] ready) (ap mark there)
  where
    mark : Option (SceneEntity G) → Outcome (Scene G)
    mark found = elim found [
      | none ↦ ok c
      | some x ↦
          let marked : SceneEntity G = record x { remove = true } in
          ok (record c { entities = store id marked c.entities })
    ]

delete_entity_lem :
    {G : Type 0} (id : ℕ) (s : Scene G) (e : SceneEntity G) (p : Packet)
    → lookup id s.entities ≡ some e
    → is_negative e.info.id ≡ false
    → s.network_ready ≡ true
    → put_number 4 id (of_header deletion_header) ≡ ok p
    → delete_entity id s ≡ ok (p ∷ [], s)
unfolding delete_entity
delete_entity_lem id s e p there shared ready put =
    rw (there, shared, ready, put, delete_entity) refl

-- For an entity with the id 0 or above that both scenes have, in a well-formed scene of the client, deleteEntity
-- on a server whose scene is ready sends one packet, a client that gets it marks the entity, the erasing of the
-- client's next update removes it, and does to the entity under any other id `j` what it would have done.
pub delete_entity-Deleted :
    {G : Type 0} (null : Bool) (game : Game G) (now id : ℕ) (s c : Scene G) (e e' : SceneEntity G)
    (j : ℕ)
    → now < 2 ^ 32
    → id < 2 ^ 32
    → s.network_ready ≡ true
    → lookup id s.entities ≡ some e
    → is_negative e.info.id ≡ false
    → lookup id c.entities ≡ some e'
    → IsScene c
    → j ≢ id
    → Deleted null game now id s c j
unfolding receive_all
delete_entity-Deleted {G} null game now id s c e e' j fits small ready there shared known scene ne =
    record {
      packet = p;
      after = record c { entities = store id marked c.entities };
      sends = delete_entity_lem id s e p there shared ready w.1;
      marks = rw (a.sent, a.built, handled) refl;
      gone = lookup-erase_marked 0 c.local_id id marked c.entities refl scene.sorted;
      others = lookup-erase_other j id marked c.entities ne;
    }
  where
    w :
        Writes
          (put_number 4 id (of_header deletion_header))
          (of_header deletion_header)
          (le_bytes 4 id)
    w = put_number-Writes 4 id (of_header deletion_header) (new_packet_room deletion_header)

    p : Packet
    p = w.0

    marked : SceneEntity G
    marked = record e' { remove = true }

    typed : p.header.type ≡ type_code entity_deletion
    typed = unfold of_header in ap (λ (h : PacketHeader). h.type) w.2.same_header

    a : Arrives p (record { type = p.header.type; time_sent = now }) (le_bytes 4 id)
    a = arrives deletion_header (le_bytes 4 id) p _ w.2 fits

    handled :
        client_handler null game a.packet c
        ≡ ok (record c { entities = store id marked c.entities })
    handled =
        client_handler-deletion null game id c e' a.packet small
          (ap (λ (h : PacketHeader). h.type) a.same_header ∙ typed) a.ready known
