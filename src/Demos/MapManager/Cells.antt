-- ===== src/Demos/MapManager/Cells.antt =====
-- Setting a tile of a map sets it and no other.
use enki_net.Common.{
  ℕ, zero, suc, ◌≡◌, ◌≢◌, ◌⊎◌, inl, inr, refl, ap, List, [], ◌∷◌, Outcome, ok, bind-ok, ◌>>=◌,
  ℕ_discrete,
}
use enki_net.Demos.MapManager.{Tile, at, set_at, set_tile}

-- Setting an element that is there sets it and no other.
abbrev pub SetsAt : {A : Type 0} → ℕ → A → List A → Type 0
SetsAt {A} k a xs =
    (ys : List A) × (set_at k a xs ≡ ok ys)
    × (at k ys ≡ ok a)
    × ((j : ℕ) → j ≢ k → at j ys ≡ at j xs)

SetsAt-suc :
    {A : Type 0} (k : ℕ) (a x : A) (xs : List A) → SetsAt k a xs → SetsAt (suc k) a (x ∷ xs)
SetsAt-suc k a x xs rest = (x ∷ rest.0, rw rest.1 refl, rest.2, go)
  where
    go : (j : ℕ) → j ≢ suc k → at j (x ∷ rest.0) ≡ at j (x ∷ xs)
    go zero ne = refl
    go (suc j) ne = rest.3 j (λ e. ne (ap suc e))

set_at-SetsAt : {A : Type 0} (k : ℕ) (a old : A) (xs : List A) → at k xs ≡ ok old → SetsAt k a xs
set_at-SetsAt k a old [] h = absurd (cc h)
set_at-SetsAt zero a old (x ∷ xs) h = (a ∷ xs, refl, refl, go)
  where
    go : (j : ℕ) → j ≢ 0 → at j (a ∷ xs) ≡ at j (x ∷ xs)
    go zero ne = absurd (ne refl)
    go (suc j) ne = refl
set_at-SetsAt (suc k) a old (x ∷ xs) h = SetsAt-suc k a x xs (set_at-SetsAt k a old xs h)

abbrev pub tile_at : ℕ → ℕ → List (List Tile) → Outcome Tile
tile_at x y map = at y map >>= at x

abbrev pub SetsTile : ℕ → ℕ → Tile → List (List Tile) → Type 0
SetsTile x y t map =
    (map' : List (List Tile)) × (set_tile x y t map ≡ ok map')
    × (tile_at x y map' ≡ ok t)
    × ((i j : ℕ) → (i ≢ x) ⊎ (j ≢ y) → tile_at i j map' ≡ tile_at i j map)

pub set_tile-SetsTile :
    (x y : ℕ) (t old : Tile) (map : List (List Tile))
    → tile_at x y map ≡ ok old
    → SetsTile x y t map
set_tile-SetsTile x y t old map h =
    (column.0, rw (found, row.1) column.1, rw column.2 row.2, others)
  where
    line : (r : List Tile) × (at y map ≡ ok r) × (at x r ≡ ok old)
    line = bind-ok (at y map) (at x) old h

    found : at y map ≡ ok line.0
    found = line.1

    row : SetsAt x t line.0
    row = set_at-SetsAt x t old line.0 line.2

    column : SetsAt y row.0 map
    column = set_at-SetsAt y row.0 line.0 map found

    others : (i j : ℕ) → (i ≢ x) ⊎ (j ≢ y) → tile_at i j column.0 ≡ tile_at i j map
    others i j ne = elim (ℕ_discrete j y) [
      | no other ↦ rw (column.3 j other) refl
      | yes e ↦ elim ne [
        | inl away ↦ rw (e, column.2, found) (row.3 i away)
        | inr other ↦ absurd (other e)
      ]
    ]
