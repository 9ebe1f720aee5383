-- ===== src/Scenegraph.antt =====
-- src/EnkiNet/Scenegraph.hpp and Scenegraph.cpp: the entities of a program. `G` is what a game's class
-- adds to an entity. An EntityID is an int32_t, kept as its bit pattern. What is logged is left out.
pub mod Store
pub mod Routing
pub mod Serving
pub mod Replication
pub mod Tick
pub mod Deletion
pub mod Update
pub mod Joining
pub mod Client
pub mod Creation
pub mod Delivery
use enki_net.Common.{
  ℕ, ◌+◌, ◌-◌, ◌%◌, ◌^◌, Bool, true, false, not, ◌||◌, List, [], ◌∷◌, Option, none, some, ltb, ◌==◌,
  ◌===◌, if◌then◌else◌, Outcome, ok, throws, fault, ◌>>=◌, out_of_range,
}
use enki_net.Packet.{Packet, of_header, type_code, entity_deletion}
use enki_net.Packet.Codec.{put_number}
use enki_net.Entity.{EntityInfo, is_negative}

pub record SceneEntity (G : Type 0) : Type 0 where
  pub info : EntityInfo
  pub remove : Bool
  pub self : G

-- ChildEntityCreationInfo
pub record ChildInfo : Type 0 where
  pub type : List ℕ
  pub name : List ℕ
  pub spawn_info : Packet

-- `entities` is the std::map in the order of its keys; `child_types` and `builders` are the other two
-- maps, and `next_id` is the member ID.
pub record Scene (G : Type 0) : Type 0 where
  pub entities : List (ℕ × SceneEntity G)
  pub child_types : List ℕ → List ChildInfo
  pub builders : List ℕ → Option (EntityInfo → G)
  pub next_id : ℕ
  pub local_id : ℕ
  pub network_ready : Bool
  pub total_network_ticks : ℕ

abbrev pub new_scene : {G : Type 0} → Scene G
new_scene = record {
  entities = [];
  child_types = λ type. [];
  builders = λ type. none;
  next_id = 1;
  local_id = 2 ^ 32 - 1;
  network_ready = false;
  total_network_ticks = 0;
}

-- The order of int32_t, on bit patterns.
abbrev pub signed_ltb : ℕ → ℕ → Bool
signed_ltb a b = ltb ((a + 2 ^ 31) % 2 ^ 32) ((b + 2 ^ 31) % 2 ^ 32)

module _ {G : Type 0} where
  -- entities.at, and entities[id] = e of a std::map.
  unfoldable pub lookup : ℕ → List (ℕ × SceneEntity G) → Option (SceneEntity G)
  lookup id [] = none
  lookup id ((k, e) ∷ rest) = let later = lookup id rest in if k == id then some e else later

  unfoldable pub store : ℕ → SceneEntity G → List (ℕ × SceneEntity G) → List (ℕ × SceneEntity G)
  store id e [] = (id, e) ∷ []
  store id e ((k, x) ∷ rest) =
      let later = store id e rest in
      if k == id
      then (id, e) ∷ rest
      else if signed_ltb id k
      then (id, e) ∷ (k, x) ∷ rest
      else (k, x) ∷ later

  -- registerEntity
  unfoldable pub register_entity : List ℕ → (EntityInfo → G) → Scene G → Scene G
  register_entity type build s = record s {
    builders = λ t. if t === type then some build else s.builders t;
  }

  -- registerEntityChildren: after a child without a builder the list that the loop runs over is emptied,
  -- and the name of the child is still read from it.
  abbrev pub all_registered : List ChildInfo → Scene G → Bool
  all_registered [] s = true
  all_registered (c ∷ cs) s =
      let rest = all_registered cs s in
      elim (s.builders c.type) [ none ↦ false | some build ↦ rest ]

  unfoldable pub register_entity_children : List ℕ → List ChildInfo → Scene G → Outcome (Scene G)
  register_entity_children type children s =
      if all_registered children s
      then ok (record s { child_types = λ t. if t === type then children else s.child_types t })
      else fault

  -- getEntity and entityExists
  unfoldable pub get_entity : ℕ → Scene G → Outcome (SceneEntity G)
  get_entity id s = elim (lookup id s.entities) [ none ↦ throws out_of_range | some e ↦ ok e ]

  unfoldable pub entity_exists : ℕ → Scene G → Bool
  entity_exists id s = elim (lookup id s.entities) [ none ↦ false | some e ↦ true ]

  -- createEntity with a spawn packet: `on_spawn` is the virtual function, which may throw. The result is the id under
  -- which the entity is kept, or `none` for a null pointer.
  unfoldable pub create_entity :
      (Packet → G → Outcome G) → EntityInfo → Packet → Scene G → Outcome (Option ℕ × Scene G)
  create_entity on_spawn info spawn s =
      if (info.name === []) || (info.type === [])
      then ok (none, s)
      else elim (s.builders info.type) [
        | none ↦ ok (none, s)
        | some build ↦
            let fresh = info.id == 0 in
            let id = if fresh then s.local_id else info.id in
            let info' : EntityInfo = record info { id = id } in
            on_spawn spawn (build info') >>= λ g.
            let e : SceneEntity G = record { info = info'; remove = false; self = g } in
            ok (
              some id,
              record s {
                entities = store id e s.entities;
                local_id = if fresh then (s.local_id + (2 ^ 32 - 1)) % 2 ^ 32 else s.local_id;
              },
            )
      ]

  -- deleteEntity: the packets to send, to all clients from a server, else to the server. An id that is
  -- not there makes a null pointer, which is used at once.
  unfoldable pub delete_entity : ℕ → Scene G → Outcome (List Packet × Scene G)
  delete_entity id s = elim (lookup id s.entities) [
    | none ↦ fault
    | some e ↦
        let marked : SceneEntity G = record e { remove = true } in
        if is_negative e.info.id
        then ok ([], record s { entities = store id marked s.entities })
        else if s.network_ready
        then (put_number 4 id
              (of_header (record { type = type_code entity_deletion; time_sent = 0 }))
            >>= λ p. ok (p ∷ [], s))
        else ok ([], s)
  ]

  -- The erase_if of update.
  unfoldable pub erase_removed : List (ℕ × SceneEntity G) → List (ℕ × SceneEntity G)
  erase_removed [] = []
  erase_removed ((k, e) ∷ rest) =
      let kept = erase_removed rest in if e.remove then kept else (k, e) ∷ kept

  -- findEntitiesByPredicate and, with their predicates, the finders by type, name, owner and parent.
  unfoldable pub find_entities :
      (SceneEntity G → Bool) → List (ℕ × SceneEntity G) → List (SceneEntity G)
  find_entities test [] = []
  find_entities test ((k, e) ∷ rest) =
      let found = find_entities test rest in if test e then e ∷ found else found

  unfoldable pub find_entities_by_type : List ℕ → Scene G → List (SceneEntity G)
  find_entities_by_type type s = find_entities (λ e. e.info.type === type) s.entities

  unfoldable pub find_entities_by_name : List ℕ → Scene G → List (SceneEntity G)
  find_entities_by_name name s = find_entities (λ e. e.info.name === name) s.entities

  unfoldable pub find_entities_by_owner : ℕ → Scene G → List (SceneEntity G)
  find_entities_by_owner owner s = find_entities (λ e. e.info.owner_id == owner) s.entities

  unfoldable pub find_entities_by_parent : ℕ → Scene G → List (SceneEntity G)
  find_entities_by_parent parent s = find_entities (λ e. e.info.parent_id == parent) s.entities

  -- findEntityByPredicate
  unfoldable pub find_entity :
      (SceneEntity G → Bool) → List (ℕ × SceneEntity G) → Option (SceneEntity G)
  find_entity test [] = none
  find_entity test ((k, e) ∷ rest) =
      let later = find_entity test rest in if test e then some e else later
