-- ===== src/Tests/Worlds.antt =====
-- Creations, deletions and network ticks at concrete inputs: a tank, of type 116, with a turret, of type
-- 117, as its child, on a host with the client 1.
use enki_net.Common.{
  ℕ, ◌+◌, ◌≡◌, refl, true, false, ◌==◌, ◌===◌, if◌then◌else◌, List, [], ◌∷◌, ◌++◌, none, some, ok,
  fault, inl, inr, Bool-cases, length, map, ◌>>=◌, arith,
}
use enki_net.Packet.{
  Packet, empty, of_header, deserialize, type_code, entity_creation, entity_deletion,
}
use enki_net.Packet.Laws.{Ready, Writes}
use enki_net.Packet.Channel.{received}
use enki_net.Packet.RoundTrip.Sequences.{vector_bytes}
use enki_net.Entity.{EntityInfo}
use enki_net.Entity.Laws.{IsInfo, info_bytes}
use enki_net.Rpc.{RpcManager}
use enki_net.Scenegraph.{Scene, SceneEntity, ChildInfo, lookup, new_scene}
use enki_net.Scenegraph.Client.{Game}
use enki_net.Scenegraph.Creation.{Peers, creation_header, create_networked, creation_packet}
use enki_net.Scenegraph.Serving.{to_everyone, server_handler, serve_deletion}
use enki_net.Scenegraph.Serving.Authority.{server_handler_deletion}
use enki_net.Scenegraph.Store.{IsScene}
use enki_net.Scenegraph.Deletion.{Deleted, delete_entity-Deleted}
use enki_net.Scenegraph.Replication.Members.{standing, receive_all-members}
use enki_net.Scenegraph.Joining.{IsJoinable}
use enki_net.Scenegraph.Replication.{IsSpawn, receive_all, server_handler-Made}
use enki_net.Packet.Codec.{get_number, put_number}
use enki_net.Scenegraph.Creation.Endless.{create_networked_own_child}
use enki_net.Scenegraph.Creation.Family.{creation_bytes, family_size}
use enki_net.Scenegraph.Creation.Numbering.{
  Made, Ranked, creation_packet-Writes, create_networked-Made,
}

abbrev spawn_bytes : List ℕ
spawn_bytes = 0 ∷ 0 ∷ 0 ∷ 0 ∷ 0 ∷ 0 ∷ 0 ∷ 0 ∷ 7 ∷ []

abbrev turret : ChildInfo
turret = record { type = 117 ∷ []; name = 116 ∷ []; spawn_info = received spawn_bytes }

abbrev build : EntityInfo → ℕ
build info = 0

abbrev pub world : Scene ℕ
world = record new_scene {
  child_types = λ t. if t === (116 ∷ []) then turret ∷ [] else [];
  builders = λ t. some build;
  network_ready = true;
}

abbrev pub host : Peers
host = record { server = true; client = some 1 }

-- The tank above the turret.
abbrev height : List ℕ → ℕ
height [] = 0
height (t ∷ ts) = if t == 116 then 2 else 1

world-Ranked : (t : List ℕ) → Ranked height (height t) (world.child_types t)
unfolding ◌===◌
world-Ranked [] = tt
world-Ranked (x ∷ []) = elim (Bool-cases (x == 116)) [
  | inl e ↦ rw e (omega arith, omega arith, tt)
  | inr e ↦ rw e tt
]
world-Ranked (x ∷ y ∷ ys) = elim (Bool-cases (x == 116)) [ inl e ↦ rw e tt | inr e ↦ rw e tt ]

two : family_size world 3 (116 ∷ []) (97 ∷ []) ≡ 2
unfolding family_size ◌===◌
two = refl

abbrev pub tank : EntityInfo
tank = record { type = 116 ∷ []; name = 97 ∷ []; id = 0; owner_id = 3; parent_id = 0 }

create_networked-Made_example :
    Made 1
      (family_size world 3 (116 ∷ []) (97 ∷ []))
      0
      3
      (create_networked true host world 3 tank (received spawn_bytes) 1)
create_networked-Made_example =
    create_networked-Made true host world refl refl height world-Ranked 3 tank
      (received spawn_bytes) 1 (omega arith) refl (omega arith) (omega (arith, two))

-- A type whose child is of the same type.
abbrev mirror : ChildInfo
mirror = record { type = 116 ∷ []; name = 97 ∷ []; spawn_info = empty }

abbrev mirrors : Scene ℕ
mirrors = record world { child_types = λ t. mirror ∷ [] }

create_networked_own_child_example : create_networked true host mirrors 9 tank empty 1 ≡ fault
unfolding ◌===◌
create_networked_own_child_example =
    create_networked_own_child true host mirrors mirror [] build 9 tank empty 1 refl refl refl refl
      refl refl

-- The packet of a creation of the tank, from the client 3, as it arrives.
abbrev creation_body : List ℕ
creation_body = info_bytes tank ++ (vector_bytes 1 spawn_bytes ++ [])

abbrev pub arrived : ℕ → List ℕ → Packet
arrived type body = record {
  info = record { sender_id = 3; time_received = 60 };
  header = record { type = type; time_sent = 50 };
  bytes = type ∷ 0 ∷ 0 ∷ 0 ∷ 50 ∷ 0 ∷ 0 ∷ 0 ∷ body;
  bytes_written = 8 + length body;
  bytes_read = 8;
  bits_written = 8;
  bits_read = 8;
}

creation_body-Ready : Ready (arrived (type_code entity_creation) creation_body) creation_body
creation_body-Ready = record { inside = omega arith; aligned = refl; unread = refl }

tank-IsInfo : IsInfo tank
tank-IsInfo = record {
  id_fits = omega arith;
  owner_fits = omega arith;
  parent_fits = omega arith;
  type_fits = omega arith;
  name_fits = omega arith;
}

spawn_bytes-IsSpawn : IsSpawn spawn_bytes
spawn_bytes-IsSpawn = (
  omega arith,
  omega arith,
  (
    omega arith,
    (
      omega arith,
      (
        omega arith,
        (
          omega arith,
          (omega arith, (omega arith, (omega arith, (omega arith, (omega arith, tt))))),
        ),
      ),
    ),
  ),
)

abbrev pub game : Game ℕ
game = record {
  on_spawn = λ p n. ok (n + 1);
  deserialize_on_connection = λ p n. ok n;
  deserialize_on_tick = λ p n. get_number 4 p >>= λ r. ok r.0;
  serialize_on_connection = λ n p. put_number 4 n p;
  serialize_on_tick = λ n p. put_number 4 n p;
  network_tick_rate = λ n. 2;
  receive_rpc = λ p n. ok n;
}

abbrev manager : RpcManager ℕ
manager = record { global_rpcs = λ n. none; entity_rpcs = λ t n. none }

server_handler-Made_example :
    (made : Made 1
      (family_size world 3 (116 ∷ []) (97 ∷ []))
      0
      3
      (create_networked true host world 3 tank (received spawn_bytes) 1))
    × (server_handler true game manager host 3
          (arrived (type_code entity_creation) creation_body)
          world
        ≡ ok (
          record world { next_id = 1 + family_size world 3 (116 ∷ []) (97 ∷ []) },
          map to_everyone made.sent,
        ))
server_handler-Made_example =
    server_handler-Made true game manager host 3 world refl refl height world-Ranked tank
      spawn_bytes [] (arrived (type_code entity_creation) creation_body) tank-IsInfo
      spawn_bytes-IsSpawn refl (omega arith) (omega (arith, two)) refl creation_body-Ready

-- The sender of a deletion is the client 3, which owns the tank with the id 1.
abbrev pub known_tank : EntityInfo
known_tank = record tank { id = 1 }

abbrev pub kept : ℕ → SceneEntity ℕ
kept n = record { info = known_tank; remove = false; self = n }

abbrev pub battle : ℕ → Scene ℕ
battle n = record world { entities = (1, kept n) ∷ [] }

abbrev deletion : Packet
deletion = arrived (type_code entity_deletion) (1 ∷ 0 ∷ 0 ∷ 0 ∷ [])

deletion_read : Packet
deletion_read = record deletion { bytes_read = 12 }

deletion_passed :
    server_handler true game manager host 3 deletion (battle 5)
    ≡ ok (battle 5, to_everyone deletion_read ∷ [])
unfolding server_handler serve_deletion get_number deserialize lookup deletion_read
deletion_passed = refl

server_handler_deletion_example :
    (id : ℕ) × (q : Packet) × (e : SceneEntity ℕ) × (get_number 4 deletion ≡ ok (id, q))
    × (lookup id (battle 5).entities ≡ some e)
    × (e.info.owner_id ≡ 3)
    × (to_everyone deletion_read ∷ [] ≡ to_everyone q ∷ [])
server_handler_deletion_example =
    server_handler_deletion true game manager host 3 (battle 5) deletion (battle 5)
      (to_everyone deletion_read) [] refl deletion_passed

tank_there : (n : ℕ) → lookup 1 (battle n).entities ≡ some (kept n)
unfolding lookup
tank_there n = refl

battle-IsScene : (n : ℕ) → IsScene (battle n)
battle-IsScene n = record {
  sorted = (omega arith, omega arith, refl, (λ h. omega (arith, h)), tt);
  negative = omega arith;
  fits = omega arith;
}

delete_entity-Deleted_example : Deleted true game 70 1 (battle 5) (battle 6) 4
delete_entity-Deleted_example =
    delete_entity-Deleted true game 70 1 (battle 5) (battle 6) (kept 5) (kept 6) 4 (omega arith)
      (omega arith) refl (tank_there 5) refl (tank_there 6) (battle-IsScene 6)
      (λ e. omega (arith, e))

-- The announcement of the tank with the id 1, as it is sent.
announced :
    Writes
      (creation_packet true known_tank (received spawn_bytes))
      (of_header creation_header)
      (creation_bytes known_tank (received spawn_bytes))
announced = creation_packet-Writes true known_tank (received spawn_bytes) (omega arith)

pub known_tank-IsInfo : IsInfo known_tank
known_tank-IsInfo = record {
  id_fits = omega arith;
  owner_fits = omega arith;
  parent_fits = omega arith;
  type_fits = omega arith;
  name_fits = omega arith;
}

known_tank-IsJoinable : IsJoinable game.on_spawn (received spawn_bytes) world.builders known_tank
unfolding ◌===◌
known_tank-IsJoinable = record {
  valid = known_tank-IsInfo;
  numbered = refl;
  refused = refl;
  build = build;
  known = refl;
  fresh = build known_tank + 1;
  spawned = refl;
}

receive_all-members_example :
    (after : Scene ℕ) × (receive_all true game 70 (announced.0 ∷ []) world ≡ ok after)
    × ((j : ℕ)
        → lookup j after.entities
          ≡ standing game world.builders j
              ((known_tank, received spawn_bytes) ∷ [])
              (lookup j world.entities))
receive_all-members_example =
    receive_all-members true game 70 (announced.0 ∷ []) ((known_tank, received spawn_bytes) ∷ [])
      world (omega arith) (announced.2, tt) (known_tank-IsInfo, spawn_bytes-IsSpawn, tt)
      (known_tank-IsJoinable, tt)
