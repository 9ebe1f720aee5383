-- ===== src/Demos/Asteroids/Asteroid.antt =====
-- demos/Asteroids/src/Asteroid.cpp. The results of std::rand are arguments, three for the making of an asteroid.
pub mod Spawning
pub mod Late
pub mod Splitting
use enki_net.Common.{
  ℕ, zero, suc, ◌+◌, ◌-◌, ◌*◌, ◌%◌, ◌^◌, Bool, true, false, not, List, [], ◌∷◌, ◌++◌, Option, leb,
  if◌then◌else◌, Outcome, ok, ◌>>=◌,
}
use enki_net.Packet.{Packet, empty, can_deserialize}
use enki_net.Packet.Codec.{put_number, get_number}
use enki_net.Entity.{EntityInfo, is_owner}
use enki_net.Demos.Scalar.{Scalar, Request, creation, deletion, put_float, get_float, rand_mod}
use enki_net.Demos.Asteroids.{
  Body, Size, nought, move, cross, serialize_on_tick, deserialize_on_tick,
}

-- "Asteroid"
abbrev pub asteroid_type : List ℕ
asteroid_type = 65 ∷ 115 ∷ 116 ∷ 101 ∷ 114 ∷ 111 ∷ 105 ∷ 100 ∷ []

pub record Asteroid (F : Type 0) : Type 0 where
  pub info : EntityInfo
  pub body : Body F
  pub point_count : ℕ
  pub points : List (F × F)
  pub speed : F
  pub radius : F
  pub rotation_speed : F
  pub velocity_x : F
  pub velocity_y : F
  pub alive : Bool

-- Three results of std::rand.
pub record Rands : Type 0 where
  pub first : ℕ
  pub second : ℕ
  pub third : ℕ

module _ {F : Type 0} (ops : Scalar F) where
  -- The members of a new asteroid.
  abbrev pub new_asteroid : EntityInfo → Asteroid F
  new_asteroid info = record {
    info = info;
    body = record { x = nought ops; y = nought ops; rotation = nought ops };
    point_count = 0;
    points = [];
    speed = ops.literal 300 1;
    radius = ops.literal 10 1;
    rotation_speed = ops.literal 200 1;
    velocity_x = ops.literal 1 1;
    velocity_y = ops.literal 1 1;
    alive = true;
  }

  -- The loop of createShape over `n` points, from `i` on.
  unfoldable pub shape_points : F → F → ℕ → ℕ → List (F × F)
  shape_points radius exterior_angle zero i = []
  shape_points radius exterior_angle (suc n) i =
      let angle = ops.floats.mul exterior_angle (ops.floats.of_int i) in
      (
        ops.floats.mul (ops.sin_degrees angle) radius,
        ops.floats.mul (ops.neg (ops.cos_degrees angle)) radius,
      )
      ∷ shape_points radius exterior_angle n (i + 1)

  unfoldable pub create_shape : ℕ → Asteroid F → Asteroid F
  unfolding shape_points
  create_shape sides a =
      let total_angle = ops.floats.of_int ((sides + (2 ^ 32 - 2)) % 2 ^ 32 * 180 % 2 ^ 32) in
      let interior_angle = ops.floats.div total_angle (ops.floats.of_int sides) in
      let exterior_angle = ops.floats.sub (ops.literal 180 1) interior_angle in
      record a { point_count = sides; points = shape_points a.radius exterior_angle sides 0 }

  -- The direction of a target, of length 1 or 0.
  abbrev pub normalized : F → F → F × F
  normalized dx dy =
      let norm = ops.sqrt (ops.floats.add (ops.floats.mul dx dx) (ops.floats.mul dy dy)) in
      if not (ops.eq norm (nought ops))
      then (ops.floats.div dx norm, ops.floats.div dy norm)
      else (nought ops, nought ops)

  unfoldable pub construct_asteroid : Rands → ℕ → F → F → Asteroid F → Outcome (Asteroid F)
  unfolding create_shape
  construct_asteroid r sides x y a =
      let placed : Asteroid F = record a {
        radius = ops.floats.of_int ((sides + (2 ^ 32 - 4)) % 2 ^ 32 * 8 % 2 ^ 32);
        body = record a.body { x = x; y = y };
      } in
      let shaped = create_shape sides placed in
      let n = ops.floats.of_int sides in
      let direction =
        normalized (ops.floats.sub (ops.floats.of_int (r.first % 1280)) x)
          (ops.floats.sub (ops.floats.of_int (r.second % 720)) y) in
      rand_mod r.third (ops.int_of (ops.floats.div (ops.floats.mul a.speed (ops.literal 2 1)) n))
      >>= λ turn. ok (record shaped {
        velocity_x =
            ops.floats.mul a.velocity_x (ops.floats.div (ops.floats.mul direction.0 a.speed) n);
        velocity_y =
            ops.floats.mul a.velocity_y (ops.floats.div (ops.floats.mul direction.1 a.speed) n);
        rotation_speed = ops.floats.sub (ops.floats.of_int turn) (ops.floats.div a.speed n);
      })

  -- onSpawn: an int, and three floats.
  unfoldable pub on_spawn : Rands → Packet → Asteroid F → Outcome (Asteroid F)
  unfolding construct_asteroid
  on_spawn r p a =
      let made = (do
        (sides, p1) ← get_number 4 p
        (x, p2) ← get_float ops p1
        (y, p3) ← get_float ops p2
        (speed, p4) ← get_float ops p3
        construct_asteroid r sides x y (record a { speed = speed })) in
      if can_deserialize (4 ∷ 4 ∷ 4 ∷ 4 ∷ []) p then made else ok a

  -- `client` is the id of the network manager's client, if it has one.
  unfoldable pub update : Option ℕ → Size F → F → Asteroid F → Asteroid F × List Request
  update client view dt a =
      let moved =
        move ops (ops.floats.mul a.velocity_x dt) (ops.floats.mul a.velocity_y dt) a.body in
      let half : Size F = record { width = a.radius; height = a.radius } in
      if not (is_owner client a.info) then (a, []) else (
        record a { body = (cross ops half view moved).0 },
        if not a.alive then deletion a.info.id ∷ [] else [],
      )

  -- The count of the points is a size_t.
  unfoldable pub serialize_on_connection : Asteroid F → Packet → Outcome Packet
  serialize_on_connection a p0 = do
    p1 ← serialize_on_tick ops a.body p0
    p2 ← put_number 8 a.point_count p1
    put_float ops a.speed p2

  -- And here it is an unsigned int.
  unfoldable pub deserialize_on_connection : Rands → Packet → Asteroid F → Outcome (Asteroid F)
  unfolding construct_asteroid
  deserialize_on_connection r p0 a = do
    (body, p1) ← deserialize_on_tick ops p0
    (sides, p2) ← get_number 4 p1
    (speed, p3) ← get_float ops p2
    construct_asteroid r sides body.x body.y (record a { body = body; speed = speed })

  unfoldable pub can_split : Asteroid F → Bool
  can_split a = leb 5 ((a.point_count + (2 ^ 64 - 2)) % 2 ^ 64)

  -- The lambda newAsteroid of split, and what it puts into the packet.
  unfoldable pub split_packet : Rands → Asteroid F → Outcome Packet
  split_packet r a = do
    p1 ← put_number 8 ((a.point_count + (2 ^ 64 - 2)) % 2 ^ 64) empty
    p2 ←
        put_float ops
          (ops.floats.add a.body.x (ops.of_int ((r.first % 20 + (2 ^ 32 - 10)) % 2 ^ 32))) p1
    p3 ←
        put_float ops
          (ops.floats.add a.body.y (ops.of_int ((r.second % 20 + (2 ^ 32 - 10)) % 2 ^ 32))) p2
    put_float ops (ops.floats.add a.speed (ops.of_int (r.third % 200 + 50))) p3

  unfoldable pub split : Rands → Rands → Asteroid F → Outcome (Asteroid F × List Request)
  unfolding split_packet can_split
  split r s a =
      let two = (do
        p ← split_packet r a
        q ← split_packet s a
        ok (
            creation asteroid_type asteroid_type 0 p
            ∷ creation asteroid_type asteroid_type 0 q
            ∷ [])) in
      (if can_split a then two else ok []) >>= λ sent.
      ok (record a { alive = false }, sent ++ deletion a.info.id ∷ [])

  unfoldable pub handle_collision :
      Option ℕ → Rands → Rands → Asteroid F → Outcome (Asteroid F × List Request)
  unfolding split
  handle_collision client r s a =
      let hit = split r s (record a { alive = false }) in
      if not (is_owner client a.info) then ok (a, []) else if a.alive then hit else ok (a, [])
