-- ===== src/Scenegraph/Client.antt =====
-- The client's handler in src/EnkiNet/Scenegraph.cpp. The virtual functions of a game's entities are
-- parameters: what they make of a packet and of the state of the entity. Each may throw.
pub mod Errors
use enki_net.Common.{
  ℕ, Bool, true, false, List, [], ◌∷◌, Option, none, some, ◌==◌, if◌then◌else◌, Outcome, ok, fault,
  ◌>>=◌,
}
use enki_net.Packet.{
  Packet, empty, reset_read_position, type_code, entity_creation, entity_creation_on_connection,
  entity_update, entity_rpc, entity_deletion,
}
use enki_net.Packet.Codec.{get_number, get_packet}
use enki_net.Entity.{EntityInfo, get_info, info_eq}
use enki_net.Scenegraph.{Scene, SceneEntity, lookup, store, create_entity}

-- The virtual functions of the entities, their network_tick_rate, and what a call of the RPC manager's
-- receive does to the entity that it is for.
pub record Game (G : Type 0) : Type 0 where
  pub on_spawn : Packet → G → Outcome G
  pub deserialize_on_connection : Packet → G → Outcome G
  pub deserialize_on_tick : Packet → G → Outcome G
  pub serialize_on_connection : G → Packet → Outcome Packet
  pub serialize_on_tick : G → Packet → Outcome Packet
  pub network_tick_rate : G → ℕ
  pub receive_rpc : Packet → G → Outcome G

-- `null` says whether data() of an empty vector is null.
module _ {G : Type 0} (null : Bool) (game : Game G) where
  -- Change what a game keeps of the entity `e` at `id`.
  unfoldable pub update_self : ℕ → SceneEntity G → Outcome G → Scene G → Outcome (Scene G)
  update_self id e new s = new >>= λ g.
      let e' : SceneEntity G = record e { self = g } in
      ok (record s { entities = store id e' s.entities })

  -- What a packet does to the entity that it names, if the entity is there with the same info.
  unfoldable pub if_same :
      EntityInfo → (SceneEntity G → Outcome (Scene G)) → Scene G → Outcome (Scene G)
  if_same info act s = elim (lookup info.id s.entities) [
    | none ↦ ok s
    | some e ↦ let acted = act e in if info_eq info e.info then acted else ok s
  ]

  -- ENTITY_CREATION
  unfoldable pub receive_creation : Packet → Scene G → Outcome (Scene G)
  receive_creation p s = do
    (info, q) ← get_info p
    (spawn, r) ← get_packet null q
    (created, s') ← create_entity game.on_spawn info spawn s
    ok s'

  -- ENTITY_CREATION_ON_CONNECTION: createEntity returns a null pointer for an info that it refuses, and
  -- the pointer is used all the same.
  unfoldable pub receive_creation_on_connection : Packet → Scene G → Outcome (Scene G)
  unfolding update_self
  receive_creation_on_connection p s = do
    (info, q) ← get_info p
    (created, s') ← create_entity game.on_spawn info empty s
    elim created [
      | none ↦ fault
      | some id ↦ elim (lookup id s'.entities) [
        | none ↦ fault
        | some e ↦ update_self id e (game.deserialize_on_connection q e.self) s'
      ]
    ]

  -- ENTITY_UPDATE
  unfoldable pub receive_update : Packet → Scene G → Outcome (Scene G)
  unfolding update_self if_same
  receive_update p s = do
    (info, q) ← get_info p
    if_same info (λ e. update_self info.id e (game.deserialize_on_tick q e.self) s) s

  -- ENTITY_RPC: the manager reads the packet again from its start.
  unfoldable pub receive_call : Packet → Scene G → Outcome (Scene G)
  unfolding update_self if_same
  receive_call p s = do
    (info, q) ← get_info p
    if_same info (λ e. update_self info.id e (game.receive_rpc (reset_read_position q) e.self) s) s

  -- ENTITY_DELETION
  unfoldable pub receive_deletion : Packet → Scene G → Outcome (Scene G)
  receive_deletion p s = do
    (id, q) ← get_number 4 p
    elim (lookup id s.entities) [
      | none ↦ ok s
      | some e ↦
          let marked : SceneEntity G = record e { remove = true } in
          ok (record s { entities = store id marked s.entities })
    ]

  -- The whole handler.
  unfoldable pub client_handler : Packet → Scene G → Outcome (Scene G)
  client_handler p s =
      let type = p.header.type in
      if type == type_code entity_creation
      then receive_creation p s
      else if type == type_code entity_creation_on_connection
      then receive_creation_on_connection p s
      else if type == type_code entity_update
      then receive_update p s
      else if type == type_code entity_rpc
      then receive_call p s
      else if type == type_code entity_deletion
      then receive_deletion p s
      else ok s
