-- ===== src/Scenegraph/Tick/Sync.antt =====
-- The packet of a network tick at another client: the receiver's copy of the entity gets the owner's state.
use enki_net.Common.{ℕ, ◌≡◌, ◌≢◌, refl, sym, ◌∙◌, Bool, List, ◌++◌, some, length, Outcome, ok}
use enki_net.Packet.{Packet, type_code, entity_update}
use enki_net.Packet.Laws.{Ready, Ready-advance, advance}
use enki_net.Entity.{EntityInfo}
use enki_net.Entity.Laws.{IsInfo, info_bytes, info_eq_iff, get_info-Reads}
use enki_net.Scenegraph.{Scene, SceneEntity, lookup, store}
use enki_net.Scenegraph.Client.{Game, update_self, if_same, receive_update, client_handler}
use enki_net.Scenegraph.Store.{lookup-store, lookup-store_other}

module _ {G : Type 0} (null : Bool) (game : Game G) (state : G → List ℕ) where
  -- deserializeOnTick takes over the state that it finds.
  abbrev pub ReadsState : Type 0
  ReadsState = (a : Packet) (g old : G) → Ready a (state g) → game.deserialize_on_tick a old ≡ ok g

  if_same_lem :
      (info : EntityInfo) (act : SceneEntity G → Outcome (Scene G)) (c : Scene G)
      (e : SceneEntity G)
      → lookup info.id c.entities ≡ some e
      → e.info ≡ info
      → if_same null game info act c ≡ act e
  unfolding if_same
  if_same_lem info act c e there same =
      rw (there, (info_eq_iff info e.info).1 (sym same), if_same) refl

  -- The client's handler on a packet of type ENTITY_UPDATE with the info and the state of an entity, at a client that
  -- has an entity with this info: if deserializeOnTick takes over the state that it finds, then afterwards the
  -- client's entity has this state, and the entity under any other id `j` is as it was.
  pub client_handler-update :
      (e copy : SceneEntity G) (a : Packet) (c : Scene G) (j : ℕ)
      → ReadsState
      → IsInfo e.info
      → a.header.type ≡ type_code entity_update
      → Ready a (info_bytes e.info ++ state e.self)
      → lookup e.info.id c.entities ≡ some copy
      → copy.info ≡ e.info
      → j ≢ e.info.id
      → (after : Scene G) × (client_handler null game a c ≡ ok after)
        × (lookup e.info.id after.entities ≡ some (record copy { self = e.self }))
        × (lookup j after.entities ≡ lookup j c.entities)
  unfolding receive_update update_self
  client_handler-update e copy a c j reads valid type ready there same ne =
      let new : SceneEntity G = record copy { self = e.self } in
      let after : Scene G = record c { entities = store e.info.id new c.entities } in
      let chosen : client_handler null game a c ≡ receive_update null game a c =
        unfold client_handler in rw type refl in
      let q = advance a (length (info_bytes e.info)) in
      let taken =
        reads q e.self copy.self (Ready-advance a (info_bytes e.info) (state e.self) ready) in
      (
        after,
        chosen
            ∙ rw (get_info-Reads e.info valid a (state e.self) ready)
                (if_same_lem e.info _ c copy there same ∙ rw taken refl),
        lookup-store e.info.id new c.entities,
        lookup-store_other j e.info.id new c.entities ne,
      )
