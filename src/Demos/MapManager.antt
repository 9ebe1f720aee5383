-- ===== src/Demos/MapManager.antt =====
-- demos/Shooter/src/Managers/MapManager.cpp: the tiles of a map, which is an image of SFML. The image's
-- sizes and its bytes, four for a pixel, are arguments. Creating the entities of the tiles is left out.
pub mod Cells
pub mod Bounds
use enki_net.Common.{
  ℕ, zero, suc, ◌+◌, ◌-◌, ◌*◌, ◌/◌, ◌%◌, ◌^◌, Bool, true, false, not, ◌&&◌, List, [], ◌∷◌, ltb,
  ◌==◌, if◌then◌else◌, Outcome, ok, fault, ◌>>=◌, replicate,
}
use enki_net.Entity.{is_negative}

pub data Tile : Type 0 where
  unknown floor wall health_pickup spawnpoint : Tile

-- The tests on the colour of a pixel.
unfoldable pub tile_of : ℕ → ℕ → ℕ → Tile
tile_of r g b =
    if r == 0 && g == 0 && b == 0
    then wall
    else if r == 255 && g == 174 && b == 201
    then spawnpoint
    else if r == 237 && g == 28 && b == 36
    then health_pickup
    else if r == 255 && g == 255 && b == 255
    then floor
    else unknown

pub record Image : Type 0 where
  pub width : ℕ
  pub height : ℕ
  pub pixels : ℕ → ℕ

-- An element of a std::vector, and setting one: outside of it this is undefined.
abbrev pub at : {A : Type 0} → ℕ → List A → Outcome A
at k [] = fault
at zero (x ∷ xs) = ok x
at (suc k) (x ∷ xs) = at k xs

abbrev pub set_at : {A : Type 0} → ℕ → A → List A → Outcome (List A)
set_at k a [] = fault
set_at zero a (x ∷ xs) = ok (a ∷ xs)
set_at (suc k) a (x ∷ xs) = set_at k a xs >>= λ ys. ok (x ∷ ys)

-- map[y][x] = tile
abbrev pub set_tile : ℕ → ℕ → Tile → List (List Tile) → Outcome (List (List Tile))
set_tile x y tile map = at y map >>= λ row. set_at x tile row >>= λ row'. set_at y row' map

-- The loop over the first `n` pixels. A new Tile is 0, which is Floor.
unfoldable pub read_pixels : Image → ℕ → Outcome (List (List Tile))
unfolding tile_of
read_pixels image zero = ok (replicate image.height (replicate image.width floor))
read_pixels image (suc n) = do
  map ← read_pixels image n
  let pixel = 4 * n
  let tile = tile_of (image.pixels pixel) (image.pixels (pixel + 1)) (image.pixels (pixel + 2))
  set_tile (pixel / 4 % image.width) (pixel / 4 / image.width) tile map

pub record MapManager : Type 0 where
  pub width : ℕ
  pub height : ℕ
  pub map : List (List Tile)

-- The constructor; the bound of the loop is an unsigned int.
unfoldable pub load_map : Image → Outcome MapManager
unfolding read_pixels
load_map image = do
  map ← read_pixels image ((image.width * image.height * 4 % 2 ^ 32 + 3) / 4)
  ok (record { width = image.width; height = image.height; map = map })

-- getTile, for ints as bit patterns.
unfoldable pub get_tile : MapManager → ℕ → ℕ → Outcome Tile
get_tile m x y =
    if not (is_negative x) && ltb x m.width && not (is_negative y) && ltb y m.height
    then (at y m.map >>= at x)
    else ok unknown
