-- ===== src/Scenegraph/Joining/Receive.antt =====
-- A client that joins: what it makes of the packet that shows it an entity.
use enki_net.Common.{
  ◌>>=◌, ℕ, ◌≤◌, ◌≡◌, refl, ap, ◌∙◌, Bool, false, ◌||◌, List, [], ◌++◌, Option, none, some, ◌==◌,
  ==_refl, ==_ne, ◌===◌, if◌then◌else◌, length, Outcome, ok, fault, ℕ_discrete,
}
use enki_net.Packet.{Packet, empty, type_code, entity_creation_on_connection}
use enki_net.Packet.Laws.{Writes, Ready, Ready-advance, advance}
use enki_net.Entity.{EntityInfo}
use enki_net.Entity.Laws.{IsInfo, info_bytes, get_info-Reads}
use enki_net.Scenegraph.{Scene, SceneEntity, lookup, store, create_entity}
use enki_net.Scenegraph.Client.{Game, update_self, receive_creation_on_connection, client_handler}
use enki_net.Scenegraph.Store.{lookup-store, lookup-store_other}

-- An entity that a client with these builders can create, its onSpawn with a spawn packet included.
pub record IsJoinable {G : Type 0} (on_spawn : Packet → G → Outcome G) (spawn : Packet)
    (builders : List ℕ → Option (EntityInfo → G)) (info : EntityInfo) : Type 0 where
  pub valid : IsInfo info
  pub numbered : info.id == 0 ≡ false
  pub refused : (info.name === []) || (info.type === []) ≡ false
  pub build : EntityInfo → G
  pub known : builders info.type ≡ some build
  pub fresh : G
  pub spawned : on_spawn spawn (build info) ≡ ok fresh

-- What the client has of an entity of the server.
abbrev pub copy_of : {G : Type 0} → SceneEntity G → SceneEntity G
copy_of e = record e { remove = false }

module _ {G : Type 0} (null : Bool) (game : Game G) (whole : G → List ℕ) where
  -- serializeOnConnection appends the whole state, and deserializeOnConnection takes it over.
  abbrev pub WritesWhole : Type 0
  WritesWhole =
      (g : G) (q : Packet)
      → q.bytes_written ≤ length q.bytes
      → Writes (game.serialize_on_connection g q) q (whole g)

  abbrev pub ReadsWhole : Type 0
  ReadsWhole =
      (a : Packet) (g old : G) → Ready a (whole g) → game.deserialize_on_connection a old ≡ ok g

  -- The scene `after` is `c` with the entity `e` put in place of what was under its id.
  abbrev pub Puts : SceneEntity G → Scene G → Scene G → Type 0
  Puts e c after =
      (after.builders ≡ c.builders)
      × ((j : ℕ)
          → lookup j after.entities
            ≡ (if j == e.info.id then some (copy_of e) else lookup j c.entities))

  create_entity_lem :
      (info : EntityInfo) (c : Scene G) (j : IsJoinable game.on_spawn empty c.builders info)
      → create_entity game.on_spawn info empty c ≡ (
          let e : SceneEntity G = record { info = info; remove = false; self = j.fresh } in
          ok (some info.id, record c { entities = store info.id e c.entities }))
  unfolding create_entity
  create_entity_lem info c j = rw (j.refused, j.known, j.numbered, j.spawned) refl

  -- The scene with the entity as it was created, and as it is then.
  with_fresh : (e : SceneEntity G) (g : G) → Scene G → Scene G
  with_fresh e g c =
      let made : SceneEntity G = record e { remove = false; self = g } in
      record c { entities = store e.info.id made c.entities }

  with_copy : (e : SceneEntity G) (g : G) → Scene G → Scene G
  with_copy e g c =
      let made = with_fresh e g c in
      record made { entities = store e.info.id (copy_of e) made.entities }

  receive_lem :
      (e : SceneEntity G) (a : Packet) (c : Scene G)
      (j : IsJoinable game.on_spawn empty c.builders e.info)
      → ReadsWhole
      → Ready a (info_bytes e.info ++ whole e.self)
      → receive_creation_on_connection null game a c ≡ ok (with_copy e j.fresh c)
  unfolding receive_creation_on_connection update_self with_fresh with_copy
  receive_lem e a c j reads ready =
      let q = advance a (length (info_bytes e.info)) in
      let fresh : SceneEntity G = record e { remove = false; self = j.fresh } in
      let taken =
        reads q e.self fresh.self (Ready-advance a (info_bytes e.info) (whole e.self) ready) in
      rw (get_info-Reads e.info j.valid a (whole e.self) ready) (
        ap then_create (create_entity_lem e.info c j)
        ∙ ap then_read (lookup-store e.info.id fresh c.entities)
        ∙ rw taken refl)
    where
      q' : Packet
      q' = advance a (length (info_bytes e.info))

      then_create : Outcome (Option ℕ × Scene G) → Outcome (Scene G)
      then_create r = r >>= λ (created, made). elim created [
        | none ↦ fault
        | some id ↦ elim (lookup id made.entities) [
          | none ↦ fault
          | some x ↦ update_self null game id x (game.deserialize_on_connection q' x.self) made
        ]
      ]

      then_read : Option (SceneEntity G) → Outcome (Scene G)
      then_read found = elim found [
        | none ↦ fault
        | some x ↦
            update_self null game e.info.id x (game.deserialize_on_connection q' x.self)
              (with_fresh e j.fresh c)
      ]

  lookup-with_copy :
      (e : SceneEntity G) (g : G) (c : Scene G) (j : ℕ)
      → lookup j (with_copy e g c).entities
        ≡ (if j == e.info.id then some (copy_of e) else lookup j c.entities)
  unfolding with_fresh with_copy
  lookup-with_copy e g c j = elim (ℕ_discrete j e.info.id) [
    | yes at ↦
        rw (at, ==_refl e.info.id) (lookup-store e.info.id (copy_of e) (with_fresh e g c).entities)
    | no ne ↦ rw (==_ne j e.info.id ne) (
        lookup-store_other j e.info.id (copy_of e) (with_fresh e g c).entities ne
        ∙ lookup-store_other j e.info.id _ c.entities ne)
  ]

  pub client_handler-joined :
      (e : SceneEntity G) (a : Packet) (c : Scene G)
      → ReadsWhole
      → IsJoinable game.on_spawn empty c.builders e.info
      → a.header.type ≡ type_code entity_creation_on_connection
      → Ready a (info_bytes e.info ++ whole e.self)
      → (after : Scene G) × (client_handler null game a c ≡ ok after) × Puts e c after
  client_handler-joined e a c reads j type ready =
      let chosen : client_handler null game a c ≡ receive_creation_on_connection null game a c =
        unfold client_handler in rw type refl in
      (
        with_copy e j.fresh c,
        chosen ∙ receive_lem e a c j reads ready,
        ((unfold with_fresh with_copy in refl), lookup-with_copy e j.fresh c),
      )
