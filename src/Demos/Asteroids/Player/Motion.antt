-- ===== src/Demos/Asteroids/Player/Motion.antt =====
-- How a player flies, in the update of demos/Asteroids/src/Player.cpp.
use enki_net.Common.{Bool, not, ◌&&◌, if◌then◌else◌}
use enki_net.Demos.Scalar.{Scalar}
use enki_net.Demos.Asteroids.{nought}
use enki_net.Demos.Asteroids.Player.State.{Player, Held}

module _ {F : Type 0} (ops : Scalar F) where
  abbrev pub speed : F
  speed = ops.literal 300 1

  abbrev pub max_velocity_length : F
  max_velocity_length = ops.literal 600 1

  -- The keys up and down: `ship_sin` and `ship_cos` are those of the rotation.
  unfoldable pub thrust : Held → F → Player F → Player F
  thrust keys dt a =
      let rads =
        ops.floats.mul a.body.rotation
          (ops.floats.div (ops.literal 31415 10000) (ops.literal 180 1)) in
      let along = ops.floats.mul (ops.floats.mul speed (ops.sin rads)) dt in
      let back =
        ops.floats.mul
          (ops.floats.mul (ops.floats.mul (ops.neg (ops.literal 1 1)) speed) (ops.sin rads)) dt in
      let over =
        ops.floats.mul
          (ops.floats.mul (ops.floats.mul (ops.neg (ops.literal 1 1)) speed) (ops.cos rads)) dt in
      let under = ops.floats.mul (ops.floats.mul speed (ops.cos rads)) dt in
      let x1 = if keys.up then ops.floats.add a.velocity_x along else a.velocity_x in
      let y1 = if keys.up then ops.floats.add a.velocity_y over else a.velocity_y in
      record a {
        velocity_x = if keys.down then ops.floats.add x1 back else x1;
        velocity_y = if keys.down then ops.floats.add y1 under else y1;
      }

  -- The keys left and right.
  unfoldable pub steer : Held → F → Player F → Player F
  steer keys dt a =
      let r1 =
        if keys.left
        then ops.turned
            (ops.floats.add a.body.rotation (ops.floats.mul (ops.neg (ops.literal 200 1)) dt))
        else a.body.rotation in
      let r2 =
        if keys.right
        then ops.turned (ops.floats.add r1 (ops.floats.mul (ops.literal 200 1) dt))
        else r1 in
      record a { body = record a.body { rotation = r2 } }

  abbrev pub velocity_length : Player F → F
  velocity_length a = ops.sqrt (
      ops.floats.add (ops.floats.mul a.velocity_x a.velocity_x)
        (ops.floats.mul a.velocity_y a.velocity_y))

  abbrev pub moves : Player F → Bool
  moves a =
      ops.lt (ops.literal 5 1) (velocity_length a)
      && not (ops.eq a.velocity_x (nought ops))
      && not (ops.eq a.velocity_y (nought ops))

  -- The key slow; the inner test on the length holds where the outer one does, but for a length that is no number.
  unfoldable pub brake : Held → F → Player F → Player F
  brake keys dt a =
      let long = velocity_length a in
      let norm_x =
        if not (ops.eq long (nought ops)) then ops.floats.div a.velocity_x long else nought ops in
      let norm_y =
        if not (ops.eq long (nought ops)) then ops.floats.div a.velocity_y long else nought ops in
      if not keys.slow
      then a
      else if moves a
      then record a {
        velocity_x = ops.floats.sub a.velocity_x (ops.floats.mul (ops.floats.mul speed norm_x) dt);
        velocity_y = ops.floats.sub a.velocity_y (ops.floats.mul (ops.floats.mul speed norm_y) dt);
      }
      else record a { velocity_x = nought ops; velocity_y = nought ops }

  -- The greatest speed.
  unfoldable pub limit : Player F → Player F
  limit a =
      let long = velocity_length a in
      let factor = ops.floats.div max_velocity_length long in
      if ops.lt max_velocity_length long
      then record a {
        velocity_x = ops.floats.mul a.velocity_x factor;
        velocity_y = ops.floats.mul a.velocity_y factor;
      }
      else a
