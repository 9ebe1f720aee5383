-- ===== src/Tests/Demos.antt =====
-- The input manager and the map of the example games at concrete inputs.
use enki_net.Common.{◌≡◌, true, false, ◌==◌, if◌then◌else◌, List, [], ◌∷◌, ok, ◌>>=◌, arith}
use enki_net.Demos.InputManager.{Frame, KeyTests, after_frames, after_frames-KeyTests}
use enki_net.Demos.MapManager.{Image, wall, tile_of, load_map, get_tile}
use enki_net.Demos.MapManager.Bounds.{get_tile-pixel_tile}

-- The key 2 is held, in the last of two frames.
abbrev frames : List Frame
frames = ((λ k. k == 2), λ b. false) ∷ ((λ k. false), λ b. false) ∷ []

after_frames-KeyTests_example : KeyTests 2 (after_frames 101 5 frames) false true
after_frames-KeyTests_example = after_frames-KeyTests 101 5 2 frames (omega arith)

-- A floor of two columns and three rows with a wall in the second column of the second row.
abbrev image : Image
image = record {
  width = 2;
  height = 3;
  pixels = λ k. if k == 12 then 0 else if k == 13 then 0 else if k == 14 then 0 else 255;
}

get_tile-pixel_tile_example : (load_map image >>= λ m. get_tile m 1 1) ≡ ok wall
unfolding tile_of
get_tile-pixel_tile_example =
    get_tile-pixel_tile image 1 1 (omega arith) (omega arith) (omega arith)
