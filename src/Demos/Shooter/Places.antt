-- ===== src/Demos/Shooter/Places.antt =====
-- The positions of tiles in demos/Shooter/src/Managers/MapManager.cpp: from the map to the world and back.
use enki_net.Common.{ℕ, ◌-◌, ◌*◌, ◌/◌, ◌%◌, ◌^◌, ◌≤◌, ◌≡◌, ap, ◌∙◌, if◌then◌else◌, lt→leb, arith}
use enki_net.Entity.{is_negative}
use enki_net.Demos.Scalar.{Scalar}
use enki_net.Demos.Shooter.Tiles.{map_pos_to_world_pos}

-- An int divided by the size of a tile, towards 0.
abbrev pub tile_quotient : ℕ → ℕ
tile_quotient n = if is_negative n then (2 ^ 32 - (2 ^ 32 - n) / 64) % 2 ^ 32 else n / 64

module _ {F : Type 0} (ops : Scalar F) where
  -- worldPosToMapPos, for a float.
  unfoldable pub world_pos_to_map_pos : F → ℕ
  world_pos_to_map_pos x = tile_quotient (ops.int_of x)

  -- Ints up to 2 ^ 24 are floats.
  abbrev pub IntsExact : Type 0
  IntsExact = (n : ℕ) → n ≤ 2 ^ 24 → ops.int_of (ops.of_int n) ≡ n

  -- A tile that is in the first 2 ^ 18 columns and rows is found again at the position in the world that belongs to it.
  pub world_pos_to_map_pos-map_pos_to_world_pos :
      (n : ℕ) → IntsExact → n ≤ 2 ^ 18 → world_pos_to_map_pos (map_pos_to_world_pos ops n) ≡ n
  unfolding world_pos_to_map_pos map_pos_to_world_pos
  world_pos_to_map_pos-map_pos_to_world_pos n exact small =
      let m = n * 64 % 2 ^ 32 in
      let here : m ≡ n * 64 = omega (arith, small) in
      ap tile_quotient (exact m (omega (arith, small))) ∙ quotient m (omega (arith, here, small))
    where
      quotient : (m : ℕ) → m ≡ n * 64 → tile_quotient m ≡ n
      quotient m h = rw (lt→leb (2 ^ 31) m (omega (arith, h, small))) (omega (arith, h))
