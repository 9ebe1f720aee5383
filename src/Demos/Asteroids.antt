-- ===== src/Demos/Asteroids.antt =====
-- demos/Asteroids: the rules of the game, without its drawing. This file has what its asteroids, bullets and players
-- share: where they are, how they leave one side of the window for the other, and what a network tick writes.
pub mod Asteroid
pub mod Bullet
pub mod Player
pub mod Collisions
pub mod Game
use enki_net.Common.{ℕ, Bool, true, false, if◌then◌else◌, Outcome, ok, ◌>>=◌}
use enki_net.Packet.{Packet}
use enki_net.Packet.Floats.{write_compressed_float, read_compressed_float}
use enki_net.Demos.Scalar.{Scalar}

-- What SFML keeps of a shape or a sprite, and a size.
pub record Body (F : Type 0) : Type 0 where
  pub x : F
  pub y : F
  pub rotation : F

pub record Size (F : Type 0) : Type 0 where
  pub width : F
  pub height : F

pub record Colour : Type 0 where
  pub r : ℕ
  pub g : ℕ
  pub b : ℕ

module _ {F : Type 0} (ops : Scalar F) where
  abbrev pub nought : F
  nought = ops.literal 0 1

  abbrev pub move : F → F → Body F → Body F
  move dx dy b = record b { x = ops.floats.add b.x dx; y = ops.floats.add b.y dy }

  -- The tests on the sides of the window, at most one of which counts, and whether one did.
  unfoldable pub cross : Size F → Size F → Body F → Body F × Bool
  cross half view b =
      if ops.le (ops.floats.add b.x half.width) nought
      then (record b { x = view.width }, true)
      else if ops.le view.width (ops.floats.sub b.x half.width)
      then (record b { x = nought }, true)
      else if ops.le (ops.floats.add b.y half.height) nought
      then (record b { y = view.height }, true)
      else if ops.le view.height (ops.floats.sub b.y half.height)
      then (record b { y = nought }, true)
      else (b, false)

  -- serializeOnTick and deserializeOnTick
  unfoldable pub serialize_on_tick : Body F → Packet → Outcome Packet
  serialize_on_tick b p0 = do
    p1 ← write_compressed_float ops.floats nought (ops.literal 1280 1) (ops.literal 1 100) b.x p0
    p2 ← write_compressed_float ops.floats nought (ops.literal 720 1) (ops.literal 1 100) b.y p1
    write_compressed_float ops.floats nought (ops.literal 360 1) (ops.literal 1 100) b.rotation p2

  unfoldable pub deserialize_on_tick : Packet → Outcome (Body F × Packet)
  deserialize_on_tick p0 = do
    (x, p1) ← read_compressed_float ops.floats nought (ops.literal 1280 1) (ops.literal 1 100) p0
    (y, p2) ← read_compressed_float ops.floats nought (ops.literal 720 1) (ops.literal 1 100) p1
    (r, p3) ← read_compressed_float ops.floats nought (ops.literal 360 1) (ops.literal 1 100) p2
    ok (record { x = x; y = y; rotation = ops.turned r }, p3)
