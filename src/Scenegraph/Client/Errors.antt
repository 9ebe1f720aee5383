-- ===== src/Scenegraph/Client/Errors.antt =====
-- What the client's handler does with packets about entities that it does not have.
use enki_net.Common.{
  ◌>>=◌, length, ℕ, ◌≡◌, ◌⊎◌, inl, inr, ap, Bool, false, ◌||◌, List, [], ◌++◌, Option, none, some,
  ◌===◌, Outcome, ok, fault, Bool-cases,
}
use enki_net.Packet.{
  empty, Packet, type_code, entity_update, entity_rpc, entity_creation_on_connection,
}
use enki_net.Packet.Laws.{advance, Ready}
use enki_net.Entity.{EntityInfo, info_eq}
use enki_net.Entity.Laws.{IsInfo, info_bytes, get_info-Reads}
use enki_net.Scenegraph.{Scene, SceneEntity, lookup, create_entity}
use enki_net.Scenegraph.Client.{
  update_self, Game, if_same, receive_update, receive_call, receive_creation_on_connection,
  client_handler,
}

-- The entity with the id of the info is not there, or has another info.
pub data IsStale {G : Type 0} (s : Scene G) (info : EntityInfo) : Type 0 where
  absent : lookup info.id s.entities ≡ none → IsStale s info
  differs :
      (e : SceneEntity G)
      → lookup info.id s.entities ≡ some e
      → info_eq info e.info ≡ false
      → IsStale s info

module _ {G : Type 0} (null : Bool) (game : Game G) where
  if_same-IsStale :
      (info : EntityInfo) (act : SceneEntity G → Outcome (Scene G)) (s : Scene G)
      → IsStale s info
      → if_same null game info act s ≡ ok s
  unfolding if_same
  if_same-IsStale info act s (absent e) = rw (e, if_same)
  if_same-IsStale info act s (differs e there other) = rw (there, other, if_same)

  -- A packet of type ENTITY_UPDATE or ENTITY_RPC whose info names an entity that is not there, or that
  -- has another info, changes nothing.
  pub client_handler-IsStale :
      (info : EntityInfo) (bs : List ℕ) (p : Packet) (s : Scene G)
      → IsInfo info
      → Ready p (info_bytes info ++ bs)
      → (p.header.type ≡ type_code entity_update) ⊎ (p.header.type ≡ type_code entity_rpc)
      → IsStale s info
      → client_handler null game p s ≡ ok s
  unfolding client_handler receive_update receive_call
  client_handler-IsStale info bs p s valid ready (inl type) stale =
      rw (get_info-Reads info valid p bs ready, type) (if_same-IsStale info _ s stale)
  client_handler-IsStale info bs p s valid ready (inr type) stale =
      rw (get_info-Reads info valid p bs ready, type) (if_same-IsStale info _ s stale)

  create_entity_unregistered :
      (info : EntityInfo) (spawn : Packet) (s : Scene G)
      → s.builders info.type ≡ none
      → create_entity game.on_spawn info spawn s ≡ ok (none, s)
  unfolding create_entity
  create_entity_unregistered info spawn s unknown =
      elim (Bool-cases ((info.name === []) || (info.type === []))) [
        | inl e ↦ rw (e, create_entity)
        | inr e ↦ rw (e, unknown, create_entity)
      ]

  -- A packet of type ENTITY_CREATION_ON_CONNECTION for a type that is not registered here makes the
  -- handler use a null pointer.
  pub client_handler_unregistered :
      (info : EntityInfo) (bs : List ℕ) (p : Packet) (s : Scene G)
      → IsInfo info
      → Ready p (info_bytes info ++ bs)
      → p.header.type ≡ type_code entity_creation_on_connection
      → s.builders info.type ≡ none
      → client_handler null game p s ≡ fault
  unfolding client_handler receive_creation_on_connection
  client_handler_unregistered info bs p s valid ready type unknown =
      let refused = create_entity_unregistered info empty s unknown in
      rw (get_info-Reads info valid p bs ready, type) (ap then_read refused)
    where
      q : Packet
      q = advance p (length (info_bytes info))

      then_read : Outcome (Option ℕ × Scene G) → Outcome (Scene G)
      then_read r = r >>= λ (created, s'). elim created [
        | none ↦ fault
        | some id ↦ elim (lookup id s'.entities) [
          | none ↦ fault
          | some e ↦ update_self null game id e (game.deserialize_on_connection q e.self) s'
        ]
      ]
