-- ===== src/Demos/MapManager/Bounds.antt =====
-- Which tile stands where, and that no access is outside of the map.
use native.Mathlib.Nat.{
  mod-lt, mul-le-mul_right, div-add-mod', div-lt_iff_lt-mul, mul-add-div_right,
  mul-add-mod_self_right, div-eq_of_lt, mod-eq_of_lt,
}
use enki_net.Common.{
  ℕ, zero, suc, ◌+◌, ◌*◌, ◌/◌, ◌%◌, ◌^◌, ◌≤◌, ◌<◌, ◌≡◌, ◌≢◌, ◌⊎◌, inl, inr, refl, sym, ap, ap₂, ◌∙◌,
  true, false, ◌&&◌, List, ltb, if◌then◌else◌, ok, ◌>>=◌, replicate, ℕ_discrete, Bool-cases, ltb→lt,
  lt→ltb, arith,
}
use enki_net.Entity.{is_negative}
use enki_net.Demos.MapManager.{
  Tile, unknown, floor, tile_of, Image, at, set_tile, read_pixels, load_map, get_tile,
}
use enki_net.Demos.MapManager.Cells.{set_tile-SetsTile, tile_at}

-- The tile of the pixel with a number.
abbrev pub pixel_tile : Image → ℕ → Tile
pixel_tile image n =
    tile_of (image.pixels (4 * n)) (image.pixels (4 * n + 1)) (image.pixels (4 * n + 2))

at-replicate : {A : Type 0} (k n : ℕ) (a : A) → k < n → at k (replicate n a) ≡ ok a
at-replicate k zero a h = absurd (omega arith)
at-replicate zero (suc n) a h = refl
at-replicate (suc k) (suc n) a h = at-replicate k n a (omega arith)

-- A number is that of the pixel in column `x` and row `y` exactly if division by the width says so.
pixel_place : (w x y n : ℕ) → x < w → n ≡ y * w + x → (n % w ≡ x) × (n / w ≡ y)
pixel_place w x y n h e =
    let positive : 0 < w = omega arith in
    (
      ap (λ (k : ℕ). k % w) e ∙ mul-add-mod_self_right y w x ∙ mod-eq_of_lt h,
      ap (λ (k : ℕ). k / w) e
          ∙ mul-add-div_right positive y x
          ∙ ap (λ (k : ℕ). y + k) (div-eq_of_lt h)
          ∙ (omega arith),
    )

factor_positive : (w h n : ℕ) → suc n ≤ w * h → 0 < w
factor_positive zero h n l = absurd (omega arith)
factor_positive (suc w) h n l = omega arith

-- How the test on the number of pixels changes.
new_tile : (c : ℕ) (t : Tile) → ok floor ≡ ok (if ltb c 0 then t else floor)
new_tile c t = ground arith

this_tile : (c n : ℕ) (t : Tile) → c ≡ n → ok t ≡ ok (if ltb c (suc n) then t else floor)
this_tile c n t e = ground arith

other_tile :
    (c n : ℕ) (t : Tile)
    → c ≢ n
    → ok (if ltb c n then t else floor) ≡ ok (if ltb c (suc n) then t else floor)
other_tile c n t ne = ground arith

module _ (image : Image) where
  -- The first `n` pixels are read, the other tiles are new.
  Filled : ℕ → List (List Tile) → Type 0
  Filled n map =
      (x y : ℕ)
      → x < image.width
      → y < image.height
      → tile_at x y map
        ≡ ok (if ltb (y * image.width + x) n then pixel_tile image (y * image.width + x) else floor)

  -- One more pixel.
  Filled-next :
      (n : ℕ) (map : List (List Tile))
      → suc n ≤ image.width * image.height
      → Filled n map
      → (map' : List (List Tile)) × (set_tile
            (n % image.width)
            (n / image.width)
            (pixel_tile image n)
            map
          ≡ ok map')
        × Filled (suc n) map'
  unfolding Filled
  Filled-next n map h filled =
      let w = image.width in
      let positive = factor_positive w image.height n h in
      let inside : n / w < image.height = (div-lt_iff_lt-mul positive).1 (omega arith) in
      let set =
        set_tile-SetsTile (n % w) (n / w) (pixel_tile image n) _ map
          (filled (n % w) (n / w) (mod-lt n positive) inside) in
      (
        set.0,
        set.1,
        λ x y a b. elim (ℕ_discrete (y * w + x) n) [
          | yes e ↦
              let place = pixel_place w x y n a (sym e) in
              ap₂ (λ (i j : ℕ). tile_at i j set.0) (sym place.0) (sym place.1)
              ∙ set.2
              ∙ ap (λ (k : ℕ). ok (pixel_tile image k)) (sym e)
              ∙ this_tile (y * w + x) n (pixel_tile image (y * w + x)) e
          | no ne ↦
              let away : (x ≢ n % w) ⊎ (y ≢ n / w) = elim (ℕ_discrete x (n % w)) [
                | no other ↦ inl other
                | yes ex ↦ inr (λ ey. ne (ap₂ (λ (j i : ℕ). j * w + i) ey ex ∙ div-add-mod' n w))
              ] in
              set.3 x y away
              ∙ filled x y a b
              ∙ other_tile (y * w + x) n (pixel_tile image (y * w + x)) ne
        ],
      )

  read_pixels_lem :
      (n : ℕ) (map map' : List (List Tile))
      → read_pixels image n ≡ ok map
      → set_tile (n % image.width) (n / image.width) (pixel_tile image n) map ≡ ok map'
      → read_pixels image (suc n) ≡ ok map'
  unfolding read_pixels
  read_pixels_lem n map map' run set = let four : 4 * n / 4 ≡ n = omega arith in rw (run, four) set

  read_pixels-Filled :
      (n : ℕ)
      → n ≤ image.width * image.height
      → (map : List (List Tile)) × (read_pixels image n ≡ ok map) × Filled n map
  unfolding read_pixels Filled
  read_pixels-Filled zero h = (
    replicate image.height (replicate image.width floor),
    refl,
    λ x y a b.
        rw (at-replicate y image.height (replicate image.width floor) b)
          (at-replicate x image.width floor a ∙ new_tile (y * image.width + x) _),
  )
  read_pixels-Filled (suc n) h =
      let before = read_pixels-Filled n (omega arith) in
      let next = Filled-next n before.0 h before.2 in
      (next.0, read_pixels_lem n before.0 next.0 before.1 next.1, next.2)

  in_range :
      (x y : ℕ)
      → x < image.width
      → y < image.height
      → ltb (y * image.width + x) (image.width * image.height) ≡ true
  in_range x y a b =
      let rows : suc y * image.width ≤ image.height * image.width =
        mul-le-mul_right image.width b in
      lt→ltb (y * image.width + x) (image.width * image.height) (omega (arith, rows))

  read_tile :
      (c : ℕ)
      → ltb c (image.width * image.height) ≡ true
      → ok (if ltb c (image.width * image.height) then pixel_tile image c else floor)
        ≡ ok (pixel_tile image c)
  read_tile c h = rw h refl

  get_tile_lem :
      (x y : ℕ) (map : List (List Tile))
      → image.width < 2 ^ 31
      → image.height < 2 ^ 31
      → Filled (image.width * image.height) map
      → get_tile (record { width = image.width; height = image.height; map = map }) x y
        ≡ ok (
            if ltb x image.width && ltb y image.height
            then pixel_tile image (y * image.width + x)
            else unknown)
  unfolding get_tile Filled
  get_tile_lem x y map wide high filled = elim (Bool-cases (ltb x image.width)) [
    | inr out ↦ ground (arith, out)
    | inl left ↦ elim (Bool-cases (ltb y image.height)) [
      | inr out ↦ ground (arith, out)
      | inl top ↦
          let a : x < image.width = ltb→lt x image.width left in
          let b : y < image.height = ltb→lt y image.height top in
          let here : is_negative x ≡ false = ground (arith, a, wide) in
          let there : is_negative y ≡ false = ground (arith, b, high) in
          rw (here, there, left, top) (filled x y a b ∙ read_tile _ (in_range x y a b))
    ]
  ]

-- For an image with fewer than 2 ^ 30 pixels and sizes that an int can hold, reading the map returns, and getTile for any
-- two ints gives the tile of the pixel in that column and row, and Unknown outside of the image: no access is outside of
-- the map.
pub get_tile-pixel_tile :
    (image : Image) (x y : ℕ)
    → image.width * image.height < 2 ^ 30
    → image.width < 2 ^ 31
    → image.height < 2 ^ 31
    → (load_map image >>= λ m. get_tile m x y)
      ≡ ok (
          if ltb x image.width && ltb y image.height
          then pixel_tile image (y * image.width + x)
          else unknown)
unfolding load_map get_tile Filled
get_tile-pixel_tile image x y few wide high =
    let count : (image.width * image.height * 4 % 2 ^ 32 + 3) / 4 ≡ image.width * image.height =
      omega arith in
    let read = read_pixels-Filled image (image.width * image.height) (omega arith) in
    rw (count, read.1) (get_tile_lem image x y read.0 wide high read.2)
