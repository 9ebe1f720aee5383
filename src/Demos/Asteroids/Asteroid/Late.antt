-- ===== src/Demos/Asteroids/Asteroid/Late.antt =====
-- What a client that joins makes of an asteroid that the server shows it.
use enki_net.Common.{
  ℕ, ◌^◌, ◌≤◌, ◌<◌, ◌≡◌, refl, ap, ◌∙◌, List, ◌++◌, length, drop, ok, fault, arith,
}
use enki_net.Packet.{Packet, le_bytes, deserialize}
use enki_net.Packet.Codec.{get_number}
use enki_net.Packet.Laws.{Appends, Writes-bind, Ready, Ready-advance, advance}
use enki_net.Packet.RoundTrip.{put_number-Writes, get_number-Reads}
use enki_net.Demos.Scalar.{Scalar, rand_mod}
use enki_net.Demos.Scalar.Packets.{put_float-Writes, get_float-Reads}
use enki_net.Demos.Asteroids.{Body, serialize_on_tick, deserialize_on_tick}
use enki_net.Demos.Asteroids.Asteroid.{
  Asteroid, Rands, construct_asteroid, serialize_on_connection, deserialize_on_connection,
}
use enki_net.Demos.Asteroids.Asteroid.Spawning.{wide_bytes}

module _ {F : Type 0} (ops : Scalar F) where
  -- What serializeOnConnection appends behind the position and the rotation.
  abbrev pub shape_bytes : Asteroid F → List ℕ
  shape_bytes a = le_bytes 8 a.point_count ++ le_bytes 4 (ops.bits a.speed)

  -- Twice the float whose representation is 0, by a number of sides that is not 0 and fits in an unsigned int, is 0 as an int.
  abbrev pub ZeroSpeed : Type 0
  ZeroSpeed =
      (sides : ℕ)
      → 0 < sides
      → sides < 2 ^ 32
      → ops.int_of (
          ops.floats.div (ops.floats.mul (ops.of_bits 0) (ops.literal 2 1))
            (ops.floats.of_int sides))
        ≡ 0

  construct_fault :
      (r : Rands) (sides : ℕ) (x y : F) (a : Asteroid F)
      → a.speed ≡ ops.of_bits 0
      → ZeroSpeed
      → 0 < sides
      → sides < 2 ^ 32
      → construct_asteroid ops r sides x y a ≡ fault
  unfolding construct_asteroid rand_mod
  construct_fault r sides x y a still nothing some_sides few =
      rw (still, nothing sides some_sides few) refl

  -- For an asteroid that has points, fewer than 2 ^ 32: the server appends the count of its points as eight bytes behind
  -- what it writes on a tick; and wherever a client reads these bytes behind the position and the rotation, if twice the
  -- float whose representation is 0, by a number of sides that is not 0, is 0 as an int, then it takes the upper half of
  -- the count for the speed, which is then 0, and divides by 0. `p` is a packet of the server with room, `q` one of the
  -- client.
  pub deserialize_on_connection_fault :
      (a old : Asteroid F) (body : Body F) (r : Rands) (p p' q q' : Packet) (rest : List ℕ)
      → ZeroSpeed
      → 0 < a.point_count
      → a.point_count < 2 ^ 32
      → serialize_on_tick ops a.body p ≡ ok p'
      → p'.bytes_written ≤ length p'.bytes
      → deserialize_on_tick ops q ≡ ok (body, q')
      → q'.bytes_read ≤ length q'.bytes
      → drop q'.bytes_read q'.bytes ≡ shape_bytes a ++ rest
      → ((sent : Packet) × (serialize_on_connection ops a p ≡ ok sent)
          × Appends p' (shape_bytes a) sent)
        × (deserialize_on_connection ops r q old ≡ fault)
  unfolding serialize_on_connection deserialize_on_connection
  deserialize_on_connection_fault a old body r p p' q q' rest nothing some_points few ticked room
        told inside unread =
      let n = a.point_count in
      let tail = le_bytes 4 (ops.bits a.speed) ++ rest in
      let from : Packet = record q' { bits_read = 8 } in
      let wide : le_bytes 8 n ≡ le_bytes 4 n ++ le_bytes 4 0 = wide_bytes n few in
      let h : Ready from (le_bytes 4 n ++ (le_bytes 4 0 ++ tail)) = record {
        inside = inside;
        aligned = refl;
        unread = unread ∙ ap (λ (l : List ℕ). l ++ tail) wide;
      } in
      let same : get_number 4 q' ≡ get_number 4 from = unfold get_number deserialize in refl in
      let written =
        Writes-bind _ _ p' (le_bytes 8 n) _ (put_number-Writes 8 n p' room)
          (put_float-Writes ops a.speed) in
      (
        (written.0, rw ticked written.1, written.2),
        rw
            (
              told,
              same,
              get_number-Reads 4 n few from (le_bytes 4 0 ++ tail) h,
              get_float-Reads ops 0 (omega arith) (advance from 4) tail
                  (Ready-advance from (le_bytes 4 n) (le_bytes 4 0 ++ tail) h),
            )
            (construct_fault r n body.x body.y (record old { body = body; speed = ops.of_bits 0 })
              refl nothing some_points few),
      )
