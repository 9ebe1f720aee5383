-- ===== src/Tests/Ticks.antt =====
-- Network ticks at concrete inputs: the tank of Tests/Worlds, and a door that is open or shut.
use enki_net.Common.{
  ℕ, ◌+◌, ◌%◌, ◌^◌, ◌≡◌, refl, Bool, true, false, ◌==◌, if◌then◌else◌, List, [], ◌∷◌, ◌++◌, some,
  ok, ◌>>=◌, arith,
}
use enki_net.Packet.{Packet, le_bytes, type_code, entity_update}
use enki_net.Packet.Laws.{Ready}
use enki_net.Entity.Laws.{info_bytes}
use enki_net.Scenegraph.{Scene, SceneEntity, lookup, new_scene}
use enki_net.Scenegraph.Client.{Game, client_handler}
use enki_net.Scenegraph.Tick.{on_network_tick}
use enki_net.Scenegraph.Tick.Updates.{WritesState, Updates, on_network_tick-Updates}
use enki_net.Packet.RoundTrip.{put_number-Writes, get_number-Reads}
use enki_net.Scenegraph.Tick.Sync.{ReadsState, client_handler-update}
use enki_net.Packet.Codec.{get_number, put_number}
use enki_net.Tests.Worlds.{game, battle, known_tank, known_tank-IsInfo, arrived}

abbrev state : ℕ → List ℕ
state n = le_bytes 4 n

game-WritesState : WritesState game 3 70 state
game-WritesState n q room = put_number-Writes 4 n q room

on_network_tick-Updates_example :
    (sent : List Packet) × (on_network_tick game 3 70
        (record (battle 5) { total_network_ticks = 3 })
      ≡ ok (sent, record (battle 5) { total_network_ticks = (3 + 1) % 2 ^ 32 }))
    × Updates game 3 70 state ((3 + 1) % 2 ^ 32) (battle 5).entities sent
on_network_tick-Updates_example =
    on_network_tick-Updates game 3 70 state (record (battle 5) { total_network_ticks = 3 })
      (omega arith) game-WritesState

-- Doors that are open or shut.
abbrev door_number : Bool → ℕ
door_number b = if b then 1 else 0

abbrev doors : Game Bool
doors = record {
  on_spawn = λ p b. ok b;
  deserialize_on_connection = λ p b. ok b;
  deserialize_on_tick = λ p b. get_number 4 p >>= λ r. ok (r.0 == 1);
  serialize_on_connection = λ b p. put_number 4 (door_number b) p;
  serialize_on_tick = λ b p. put_number 4 (door_number b) p;
  network_tick_rate = λ b. 1;
  receive_rpc = λ p b. ok b;
}

doors-ReadsState : ReadsState true doors (λ b. le_bytes 4 (door_number b))
doors-ReadsState a true old ready = rw (get_number-Reads 4 1 (omega arith) a [] ready) refl
doors-ReadsState a false old ready = rw (get_number-Reads 4 0 (omega arith) a [] ready) refl

abbrev door : Bool → SceneEntity Bool
door b = record { info = known_tank; remove = false; self = b }

abbrev house : Scene Bool
house = record new_scene { entities = (1, door false) ∷ [] }

door_there : lookup 1 house.entities ≡ some (door false)
unfolding lookup
door_there = refl

abbrev door_packet : Packet
door_packet = arrived (type_code entity_update) (info_bytes known_tank ++ le_bytes 4 1)

door_packet-Ready : Ready door_packet (info_bytes known_tank ++ le_bytes 4 1)
door_packet-Ready = record { inside = omega arith; aligned = refl; unread = refl }

client_handler-update_example :
    (after : Scene Bool) × (client_handler true doors door_packet house ≡ ok after)
    × (lookup 1 after.entities ≡ some (door true))
    × (lookup 2 after.entities ≡ lookup 2 house.entities)
client_handler-update_example =
    client_handler-update true doors (λ b. le_bytes 4 (door_number b)) (door true) (door false)
      door_packet house 2 doors-ReadsState known_tank-IsInfo refl door_packet-Ready door_there refl
      (λ e. omega (arith, e))
