-- ===== src/Demos/Shooter/Tiles.antt =====
-- createMap of demos/Shooter/src/Managers/MapManager.cpp, and the positions of tiles, which are 64 wide. std::to_string is an
-- argument.
use enki_net.Common.{
  ℕ, ◌+◌, ◌*◌, ◌%◌, ◌^◌, ◌≡◌, refl, List, [], ◌∷◌, ◌++◌, length, length-append, ◌==◌, Bool-cases,
  inl, inr, if◌then◌else◌, Outcome, ok, ◌>>=◌, arith,
}
use enki_net.Packet.{Packet, empty}
use enki_net.Demos.MapManager.{Tile, unknown, floor, wall, health_pickup, spawnpoint, MapManager}
use enki_net.Demos.Scalar.{Scalar, Request, creation, put_float}
use enki_net.Demos.Scalar.Packets.{put_float-Writes}
use enki_net.Demos.Asteroids.Asteroid.Spawning.{empty_room}

-- "Floor", "Wall", "HealthSpawner" and ", "
abbrev pub floor_type : List ℕ
floor_type = 70 ∷ 108 ∷ 111 ∷ 111 ∷ 114 ∷ []

abbrev pub wall_type : List ℕ
wall_type = 87 ∷ 97 ∷ 108 ∷ 108 ∷ []

abbrev pub health_spawner_type : List ℕ
health_spawner_type = 72 ∷ 101 ∷ 97 ∷ 108 ∷ 116 ∷ 104 ∷ 83 ∷ 112 ∷ 97 ∷ 119 ∷ 110 ∷ 101 ∷ 114 ∷ []

abbrev pub comma : List ℕ
comma = 44 ∷ 32 ∷ []

module _ {F : Type 0} (ops : Scalar F) where
  -- mapPosToWorldPos, for an int.
  unfoldable pub map_pos_to_world_pos : ℕ → F
  map_pos_to_world_pos n = ops.of_int (n * 64 % 2 ^ 32)

  -- getWidth and getHeight, for the width and the height.
  unfoldable pub extent : ℕ → F
  extent n = ops.floats.mul (ops.floats.of_int n) (ops.floats.of_int 64)

  module _ (to_string : ℕ → List ℕ) where
    abbrev pub tile_name : List ℕ → ℕ → ℕ → List ℕ
    tile_name type x y = type ++ (32 ∷ to_string x) ++ comma ++ to_string y

    -- The switch on a tile, for the packet with its position.
    unfoldable pub tile_requests : Tile → ℕ → ℕ → Packet → List Request
    tile_requests unknown x y p = []
    tile_requests floor x y p = creation floor_type (tile_name floor_type x y) 0 p ∷ []
    tile_requests wall x y p = creation wall_type (tile_name wall_type x y) 0 p ∷ []
    tile_requests health_pickup x y p =
        creation health_spawner_type (tile_name health_spawner_type x y) 0 p ∷ []
    tile_requests spawnpoint x y p = []

    -- The loop over a row, from `x` on, and that over the rows, from `y` on.
    unfoldable pub create_row : ℕ → ℕ → List Tile → Outcome (List Request)
    unfolding tile_requests map_pos_to_world_pos
    create_row x y [] = ok []
    create_row x y (t ∷ ts) = do
      p1 ← put_float ops (map_pos_to_world_pos x) empty
      p2 ← put_float ops (map_pos_to_world_pos y) p1
      rest ← create_row (x + 1) y ts
      ok (tile_requests t x y p2 ++ rest)

    unfoldable pub create_rows : ℕ → List (List Tile) → Outcome (List Request)
    unfolding create_row
    create_rows y [] = ok []
    create_rows y (row ∷ rows) = do
      first ← create_row 0 y row
      rest ← create_rows (y + 1) rows
      ok (first ++ rest)

    -- createMap, for the id of the client.
    unfoldable pub create_map : ℕ → MapManager → Outcome (List Request)
    unfolding create_rows
    create_map client m =
        let created = create_rows 0 m.map in if client == 1 then created else ok []

-- How many tiles are shown.
abbrev pub is_shown : Tile → ℕ
is_shown unknown = 0
is_shown floor = 1
is_shown wall = 1
is_shown health_pickup = 1
is_shown spawnpoint = 0

abbrev pub row_shown : List Tile → ℕ
row_shown [] = 0
row_shown (t ∷ ts) = is_shown t + row_shown ts

abbrev pub rows_shown : List (List Tile) → ℕ
rows_shown [] = 0
rows_shown (row ∷ rows) = row_shown row + rows_shown rows

module _ {F : Type 0} (ops : Scalar F) (to_string : ℕ → List ℕ) where
  tile_requests-shown :
      (t : Tile) (x y : ℕ) (p : Packet) → length (tile_requests ops to_string t x y p) ≡ is_shown t
  unfolding tile_requests
  tile_requests-shown unknown x y p = refl
  tile_requests-shown floor x y p = refl
  tile_requests-shown wall x y p = refl
  tile_requests-shown health_pickup x y p = refl
  tile_requests-shown spawnpoint x y p = refl

  create_row-shown :
      (x y : ℕ) (row : List Tile)
      → (sent : List Request) × (create_row ops to_string x y row ≡ ok sent)
        × (length sent ≡ row_shown row)
  unfolding create_row
  create_row-shown x y [] = ([], refl, refl)
  create_row-shown x y (t ∷ ts) =
      let (p1, first, a) = put_float-Writes ops (map_pos_to_world_pos ops x) empty empty_room in
      let (p2, second, b) = put_float-Writes ops (map_pos_to_world_pos ops y) p1 a.room in
      let (rest, later, count) = create_row-shown (x + 1) y ts in
      let here = tile_requests ops to_string t x y p2 in
      (
        here ++ rest,
        rw (first, second, later) refl,
        omega (arith, length-append here rest, count, tile_requests-shown t x y p2),
      )

  create_rows-shown :
      (y : ℕ) (rows : List (List Tile))
      → (sent : List Request) × (create_rows ops to_string y rows ≡ ok sent)
        × (length sent ≡ rows_shown rows)
  unfolding create_rows
  create_rows-shown y [] = ([], refl, refl)
  create_rows-shown y (row ∷ rows) =
      let (first, run, count) = create_row-shown 0 y row in
      let (rest, later, counts) = create_rows-shown (y + 1) rows in
      (first ++ rest, rw (run, later) refl, omega (arith, length-append first rest, count, counts))

  -- The creation of a map returns, and asks for one entity for each tile that is a floor, a wall or a health pickup, if the
  -- client has the id 1, and else for none.
  pub create_map-shown :
      (client : ℕ) (m : MapManager)
      → (sent : List Request) × (create_map ops to_string client m ≡ ok sent)
        × (length sent ≡ (if client == 1 then rows_shown m.map else 0))
  unfolding create_map
  create_map-shown client m =
      let (sent, run, count) = create_rows-shown 0 m.map in
      elim (Bool-cases (client == 1)) [
        | inl host ↦ rw host (sent, run, count)
        | inr guest ↦ rw guest ([], refl, refl)
      ]
