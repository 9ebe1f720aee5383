-- ===== src/Tests/Joins.antt =====
-- A client that joins, and an update of a scene, at concrete inputs: doors that are open or shut, and tanks.
use enki_net.Common.{
  ℕ, ◌-◌, ◌^◌, ◌≡◌, refl, Bool, true, false, ◌==◌, ◌===◌, if◌then◌else◌, List, [], ◌∷◌, map, none,
  some, ok, ◌>>=◌, arith,
}
use enki_net.Packet.{empty, Packet, le_bytes}
use enki_net.Packet.Codec.{get_number, put_number}
use enki_net.Packet.RoundTrip.{put_number-Writes, get_number-Reads}
use enki_net.Rpc.{RpcManager}
use enki_net.Scenegraph.{Scene, SceneEntity, lookup, new_scene}
use enki_net.Scenegraph.Client.{Game}
use enki_net.Scenegraph.Joining.{
  IsJoinable, WritesWhole, ReadsWhole, overlay, send_all_networked_entities-Joins,
}
use enki_net.Scenegraph.Replication.{receive_all}
use enki_net.Scenegraph.Routing.{only}
use enki_net.Scenegraph.Serving.{send_all_networked_entities}
use enki_net.Tests.Worlds.{host, known_tank, known_tank-IsInfo, kept, world}

abbrev gate_number : Bool → ℕ
gate_number b = if b then 1 else 0

abbrev gate_bytes : Bool → List ℕ
gate_bytes b = le_bytes 4 (gate_number b)

-- Gates that show whether they are open to a client that connects.
abbrev gates : Game Bool
gates = record {
  on_spawn = λ p b. ok b;
  deserialize_on_connection = λ p b. get_number 4 p >>= λ r. ok (r.0 == 1);
  deserialize_on_tick = λ p b. ok b;
  serialize_on_connection = λ b p. put_number 4 (gate_number b) p;
  serialize_on_tick = λ b p. ok p;
  network_tick_rate = λ b. 1;
  receive_rpc = λ p b. ok b;
}

gates-WritesWhole : WritesWhole true gates gate_bytes
gates-WritesWhole b q room = put_number-Writes 4 (gate_number b) q room

gates-ReadsWhole : ReadsWhole true gates gate_bytes
gates-ReadsWhole a true old ready = rw (get_number-Reads 4 1 (omega arith) a [] ready) refl
gates-ReadsWhole a false old ready = rw (get_number-Reads 4 0 (omega arith) a [] ready) refl

abbrev calls : RpcManager Bool
calls = record { global_rpcs = λ n. none; entity_rpcs = λ t n. none }

abbrev gate : Bool → SceneEntity Bool
gate b = record { info = known_tank; remove = false; self = b }

-- The server has an open gate, and the client, which has none, makes gates that are shut.
abbrev castle : Scene Bool
castle = record new_scene { entities = (1, gate true) ∷ []; network_ready = true }

abbrev visitor : Scene Bool
visitor = record new_scene { builders = λ t. some (λ info. false) }

gate-IsJoinable : IsJoinable gates.on_spawn empty visitor.builders known_tank
unfolding ◌===◌
gate-IsJoinable = record {
  valid = known_tank-IsInfo;
  numbered = refl;
  refused = refl;
  build = λ info. false;
  known = refl;
  fresh = false;
  spawned = refl;
}

send_all_networked_entities-Joins_example :
    (ps : List Packet) × (send_all_networked_entities true gates calls host 0 2 castle
      ≡ ok (map (λ p. (only 2, p)) ps))
    × (after : Scene Bool) × (receive_all true gates 70 ps visitor ≡ ok after)
    × ((j : ℕ)
        → lookup j after.entities ≡ overlay (lookup j castle.entities) (lookup j visitor.entities))
send_all_networked_entities-Joins_example =
    send_all_networked_entities-Joins true gates calls host 0 gate_bytes 70 (omega arith)
      gates-WritesWhole gates-ReadsWhole 2 castle visitor refl refl (refl, gate-IsJoinable, tt)

-- A local turret, whose parent, the entity 9, is gone, below a tank.
abbrev orphan : SceneEntity ℕ
orphan = record {
  info = record known_tank { id = 2 ^ 32 - 1; parent_id = 9 };
  remove = false;
  self = 4;
}

-- A networked turret of the same parent.
abbrev shared_orphan : SceneEntity ℕ
shared_orphan = record {
  info = record known_tank { id = 2; parent_id = 9 };
  remove = false;
  self = 4;
}

abbrev field : Scene ℕ
field = record world {
  entities = (2 ^ 32 - 1, orphan) ∷ (1, kept 5) ∷ (2, shared_orphan) ∷ [];
  local_id = 2 ^ 32 - 2;
}
