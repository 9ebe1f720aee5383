-- ===== src/Demos/Asteroids/Asteroid/Spawning.antt =====
-- What the packet of a split asteroid is to the asteroid that is spawned from it.
use enki_net.Common.{
  ℕ, ◌+◌, ◌-◌, ◌/◌, ◌%◌, ◌^◌, ◌≤◌, ◌<◌, ◌≡◌, refl, ap, ◌∙◌, List, ◌++◌, length, ltb, false, le→ltb,
  arith,
}
use enki_net.Packet.{Packet, empty, default_header, le_bytes, can_deserialize}
use enki_net.Packet.Laws.{Writes, Writes-bind, Ready, Ready-advance, Ready-length, advance}
use enki_net.Packet.RoundTrip.{put_number-Writes, get_number-Reads}
use enki_net.Packet.Transmission.{new_packet_room}
use enki_net.Demos.Scalar.{Scalar}
use enki_net.Demos.Scalar.Packets.{IsScalar, put_float-Writes, get_float-Reads}
use enki_net.Demos.Asteroids.Asteroid.{Asteroid, Rands, construct_asteroid, on_spawn, split_packet}

pub empty_room : empty.bytes_written ≤ length empty.bytes
unfolding empty
empty_room = new_packet_room default_header

-- The eight bytes of a number that fits in four.
pub wide_bytes : (n : ℕ) → n < 2 ^ 32 → le_bytes 8 n ≡ le_bytes 4 n ++ le_bytes 4 0
wide_bytes n fits =
    let above : n / 256 / 256 / 256 / 256 ≡ 0 = omega arith in
    ap (λ (m : ℕ). le_bytes 4 n ++ le_bytes 4 m) above

module _ {F : Type 0} (ops : Scalar F) where
  -- The numbers in the packet of a split asteroid.
  abbrev pub spawn_count : Asteroid F → ℕ
  spawn_count a = (a.point_count + (2 ^ 64 - 2)) % 2 ^ 64

  abbrev pub spawn_x : Rands → Asteroid F → F
  spawn_x r a = ops.floats.add a.body.x (ops.of_int ((r.first % 20 + (2 ^ 32 - 10)) % 2 ^ 32))

  abbrev pub spawn_y : Rands → Asteroid F → F
  spawn_y r a = ops.floats.add a.body.y (ops.of_int ((r.second % 20 + (2 ^ 32 - 10)) % 2 ^ 32))

  abbrev pub spawn_speed : Rands → Asteroid F → F
  spawn_speed r a = ops.floats.add a.speed (ops.of_int (r.third % 200 + 50))

  abbrev pub spawn_bytes : Rands → Asteroid F → List ℕ
  spawn_bytes r a =
      le_bytes 8 (spawn_count a)
      ++ (le_bytes 4 (ops.bits (spawn_x r a))
          ++ (le_bytes 4 (ops.bits (spawn_y r a)) ++ le_bytes 4 (ops.bits (spawn_speed r a))))

  pub split_packet-Writes :
      (r : Rands) (a : Asteroid F) → Writes (split_packet ops r a) empty (spawn_bytes r a)
  unfolding split_packet
  split_packet-Writes r a =
      Writes-bind _ _ empty (le_bytes 8 (spawn_count a)) _
        (put_number-Writes 8 (spawn_count a) empty empty_room)
        (λ q room.
          Writes-bind _ _ q (le_bytes 4 (ops.bits (spawn_x r a))) _
            (put_float-Writes ops (spawn_x r a) q room)
            (λ q' room'.
              Writes-bind _ _ q' (le_bytes 4 (ops.bits (spawn_y r a))) _
                (put_float-Writes ops (spawn_y r a) q' room')
                (put_float-Writes ops (spawn_speed r a))))

  -- An asteroid that is made from sixteen bytes and more.
  pub on_spawn-Ready :
      (r : Rands) (b : Asteroid F) (q : Packet) (sides x y speed : ℕ) (rest : List ℕ)
      → sides < 2 ^ 32
      → x < 2 ^ 32
      → y < 2 ^ 32
      → speed < 2 ^ 32
      → Ready q (le_bytes 4 sides ++ (le_bytes 4 x ++ (le_bytes 4 y ++ (le_bytes 4 speed ++ rest))))
      → on_spawn ops r q b
        ≡ construct_asteroid ops r sides
            (ops.of_bits x)
            (ops.of_bits y)
            (record b { speed = ops.of_bits speed })
  unfolding on_spawn can_deserialize
  on_spawn-Ready r b q sides x y speed rest fits_sides fits_x fits_y fits_speed ready =
      let later2 = le_bytes 4 speed ++ rest in
      let later1 = le_bytes 4 y ++ later2 in
      let later = le_bytes 4 x ++ later1 in
      let q1 = advance q 4 in
      let q2 = advance q1 4 in
      let q3 = advance q2 4 in
      let h1 = Ready-advance q (le_bytes 4 sides) later ready in
      let h2 = Ready-advance q1 (le_bytes 4 x) later1 h1 in
      let h3 = Ready-advance q2 (le_bytes 4 y) later2 h2 in
      let enough : ltb (length q.bytes) (q.bytes_read + 16) ≡ false =
        le→ltb (length q.bytes) (q.bytes_read + 16) (
          omega (
            arith,
            Ready-length q
                (le_bytes 4 sides ++ (le_bytes 4 x ++ (le_bytes 4 y ++ le_bytes 4 speed))) rest
                ready,
          )) in
      rw
        (
          enough,
          get_number-Reads 4 sides fits_sides q later ready,
          get_float-Reads ops x fits_x q1 later1 h1,
          get_float-Reads ops y fits_y q2 later2 h2,
          get_float-Reads ops speed fits_speed q3 rest h3,
        )
        refl

  -- The packet that split makes of an asteroid with 7 points or more, but fewer than 2 ^ 32, has 20 bytes behind its
  -- header: the count of the points, less 2, as eight bytes, and three floats. An asteroid that is spawned from these
  -- bytes, as from any packet whose unread bytes begin with them, takes the upper half of the count for its x, the x
  -- that was meant for its y, and the y that was meant for its speed; only its number of sides is the one that was meant.
  pub split_packet-on_spawn :
      (r : Rands) (a : Asteroid F)
      → IsScalar ops
      → 7 ≤ a.point_count
      → a.point_count < 2 ^ 32
      → Writes (split_packet ops r a) empty (spawn_bytes r a)
        × ((r' : Rands) (b : Asteroid F) (q : Packet) (rest : List ℕ)
            → Ready q (spawn_bytes r a ++ rest)
            → on_spawn ops r' q b
              ≡ construct_asteroid ops r'
                  (a.point_count - 2)
                  (ops.of_bits 0)
                  (spawn_x r a)
                  (record b { speed = spawn_y r a }))
  split_packet-on_spawn r a scalar many few = (
    split_packet-Writes r a,
    λ r' b q rest ready.
        let n = a.point_count - 2 in
        let tail =
          le_bytes 4 (ops.bits (spawn_x r a))
          ++ (le_bytes 4 (ops.bits (spawn_y r a))
              ++ (le_bytes 4 (ops.bits (spawn_speed r a)) ++ rest)) in
        let count : spawn_count a ≡ n = omega (arith, many, few) in
        let wide : le_bytes 8 (spawn_count a) ≡ le_bytes 4 n ++ le_bytes 4 0 =
          ap (le_bytes 8) count ∙ wide_bytes n (omega (arith, few)) in
        let bytes : Ready q (le_bytes 4 n ++ (le_bytes 4 0 ++ tail)) = record {
          inside = ready.inside;
          aligned = ready.aligned;
          unread = ready.unread ∙ ap (λ (l : List ℕ). l ++ tail) wide;
        } in
        on_spawn-Ready r' b q n 0 (ops.bits (spawn_x r a)) (ops.bits (spawn_y r a))
          (le_bytes 4 (ops.bits (spawn_speed r a)) ++ rest) (omega (arith, few)) (omega arith)
          (scalar.fits (spawn_x r a)) (scalar.fits (spawn_y r a)) bytes
        ∙ ap
            (λ (x : F).
              construct_asteroid ops r' n (ops.of_bits 0) x
                (record b { speed = ops.of_bits (ops.bits (spawn_y r a)) }))
            (scalar.of_bits-bits (spawn_x r a))
        ∙ ap
            (λ (y : F).
              construct_asteroid ops r' n (ops.of_bits 0) (spawn_x r a) (record b { speed = y }))
            (scalar.of_bits-bits (spawn_y r a)),
  )
