-- ===== src/Tests/Asteroids.antt =====
-- What happens to asteroids in demos/Asteroids that are spawned or shown, at concrete inputs.
use enki_net.Common.{ℕ, ◌-◌, ◌≡◌, refl, Bool, false, List, [], ◌∷◌, ◌++◌, ok, fault, arith}
use enki_net.Packet.{Packet, empty}
use enki_net.Packet.Floats.{write_compressed_float, read_compressed_float}
use enki_net.Packet.Bits.{write_bits, read_bits}
use enki_net.Packet.Laws.{Writes, Ready, Appends}
use enki_net.Demos.Asteroids.{serialize_on_tick, deserialize_on_tick}
use enki_net.Demos.Asteroids.Asteroid.{
  Asteroid, Rands, construct_asteroid, on_spawn, split_packet, serialize_on_connection,
  deserialize_on_connection,
}
use enki_net.Demos.Asteroids.Asteroid.Spawning.{
  spawn_bytes, spawn_x, spawn_y, split_packet-on_spawn,
}
use enki_net.Demos.Asteroids.Asteroid.Late.{shape_bytes, deserialize_on_connection_fault}
use enki_net.Tests.Scalars.{digits, digits-IsScalar, draw, rock}

split_packet-on_spawn_example :
    Writes (split_packet digits draw (rock digits)) empty (spawn_bytes digits draw (rock digits))
    × ((r' : Rands) (b : Asteroid Bool) (q : Packet) (rest : List ℕ)
        → Ready q (spawn_bytes digits draw (rock digits) ++ rest)
        → on_spawn digits r' q b
          ≡ construct_asteroid digits r'
              (12 - 2)
              (digits.of_bits 0)
              (spawn_x digits draw (rock digits))
              (record b { speed = spawn_y digits draw (rock digits) }))
split_packet-on_spawn_example =
    split_packet-on_spawn digits draw (rock digits) digits-IsScalar (omega arith) (omega arith)

-- The position and the rotation of the asteroid, as they are written, and as they arrive before its points.
abbrev ticked : Packet
ticked = record {
  info = record { sender_id = 0; time_received = 0 };
  header = record { type = 0; time_sent = 0 };
  bytes = 0 ∷ 0 ∷ 0 ∷ 0 ∷ 0 ∷ 0 ∷ 0 ∷ 0 ∷ 0 ∷ 0 ∷ [];
  bytes_written = 10;
  bytes_read = 8;
  bits_written = 1;
  bits_read = 8;
}

ticked_lem : serialize_on_tick digits (rock digits).body empty ≡ ok ticked
unfolding serialize_on_tick empty write_compressed_float write_bits
ticked_lem = refl

abbrev arrived_shape : Packet
arrived_shape = record ticked { bytes = ticked.bytes ++ shape_bytes digits (rock digits) }

arrived_shape_lem :
    deserialize_on_tick digits arrived_shape
    ≡ ok (
      record { x = false; y = false; rotation = false },
      record arrived_shape { bytes_read = 10; bits_read = 1 },
    )
unfolding deserialize_on_tick read_compressed_float read_bits
arrived_shape_lem = refl

deserialize_on_connection_fault_example :
    ((sent : Packet) × (serialize_on_connection digits (rock digits) empty ≡ ok sent)
      × Appends ticked (shape_bytes digits (rock digits)) sent)
    × (deserialize_on_connection digits draw arrived_shape (rock digits) ≡ fault)
deserialize_on_connection_fault_example =
    deserialize_on_connection_fault digits (rock digits) (rock digits)
      (record { x = false; y = false; rotation = false }) draw empty ticked arrived_shape
      (record arrived_shape { bytes_read = 10; bits_read = 1 }) [] (λ n h g. refl) (omega arith)
      (omega arith) ticked_lem (omega arith) arrived_shape_lem (omega arith) refl
