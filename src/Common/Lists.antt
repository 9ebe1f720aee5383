-- ===== src/Common/Lists.antt =====
-- Lists measured and indexed by native numbers, under the library's names, and the operations of
-- std::vector<std::byte> that the packets use.
use Prim.Native.Nat.{ℕ, zero, suc, ◌+◌, ◌-◌, ◌≤◌}
use mathlib.Core.Path.{◌≡◌, refl, ap}
use mathlib.Core.List.{List, [], ◌∷◌, ◌++◌}
use native.Mathlib.Omega.{arith}

module _ {ℓ} {A : Type ℓ} where
  abbrev pub length : List A → ℕ
  length [] = 0
  length (x ∷ xs) = suc (length xs)

  abbrev pub get_or : List A → ℕ → A → A
  get_or [] i d = d
  get_or (x ∷ xs) zero d = x
  get_or (x ∷ xs) (suc i) d = get_or xs i d

  -- A write out of bounds changes nothing.
  abbrev pub set : List A → ℕ → A → List A
  set [] i v = []
  set (x ∷ xs) zero v = v ∷ xs
  set (x ∷ xs) (suc i) v = x ∷ set xs i v

  abbrev pub take : ℕ → List A → List A
  take zero xs = []
  take (suc n) [] = []
  take (suc n) (x ∷ xs) = x ∷ take n xs

  abbrev pub drop : ℕ → List A → List A
  drop zero xs = xs
  drop (suc n) [] = []
  drop (suc n) (x ∷ xs) = drop n xs

  abbrev pub replicate : ℕ → A → List A
  replicate zero a = []
  replicate (suc n) a = a ∷ replicate n a

  pub length-append : (xs ys : List A) → length (xs ++ ys) ≡ length xs + length ys
  length-append [] ys = omega arith
  length-append (x ∷ xs) ys = omega (arith, length-append xs ys)

  pub length-set : (xs : List A) (i : ℕ) (v : A) → length (set xs i v) ≡ length xs
  length-set [] i v = refl
  length-set (x ∷ xs) zero v = refl
  length-set (x ∷ xs) (suc i) v = ap suc (length-set xs i v)

  pub length-replicate : (n : ℕ) (a : A) → length (replicate n a) ≡ n
  length-replicate zero a = refl
  length-replicate (suc n) a = ap suc (length-replicate n a)

  pub length-drop : (n : ℕ) (xs : List A) → length (drop n xs) ≡ length xs - n
  length-drop zero xs = omega arith
  length-drop (suc n) [] = omega arith
  length-drop (suc n) (x ∷ xs) = omega (arith, length-drop n xs)

  pub length-take : (n : ℕ) (xs : List A) → n ≤ length xs → length (take n xs) ≡ n
  length-take zero xs h = refl
  length-take (suc n) [] h = absurd (omega arith)
  length-take (suc n) (x ∷ xs) h = ap suc (length-take n xs (omega arith))

  pub take-append : (xs ys : List A) → take (length xs) (xs ++ ys) ≡ xs
  take-append [] ys = refl
  take-append (x ∷ xs) ys = ap (◌∷◌ x) (take-append xs ys)

  pub drop-append : (xs ys : List A) → drop (length xs) (xs ++ ys) ≡ ys
  drop-append [] ys = refl
  drop-append (x ∷ xs) ys = drop-append xs ys

  pub take_all : (xs : List A) → take (length xs) xs ≡ xs
  take_all [] = refl
  take_all (x ∷ xs) = ap (◌∷◌ x) (take_all xs)

  drop-nil : (n : ℕ) → drop n [] ≡ []
  drop-nil zero = refl
  drop-nil (suc n) = refl

  pub drop-drop : (m n : ℕ) (xs : List A) → drop n (drop m xs) ≡ drop (m + n) xs
  drop-drop zero n xs = let e : zero + n ≡ n = omega arith in rw e
  drop-drop (suc m) n [] = rw (drop-nil n, drop-nil (suc m + n))
  drop-drop (suc m) n (x ∷ xs) =
      let e : suc m + n ≡ suc (m + n) = omega arith in rw e (drop-drop m n xs)

  -- `memcpy` of a block over the front of a vector: what would lie behind its end is not stored.
  abbrev pub poke : List A → List A → List A
  poke [] ds = []
  poke (x ∷ xs) [] = x ∷ xs
  poke (x ∷ xs) (d ∷ ds) = d ∷ poke xs ds

  -- `memcpy` of a block to an index of a vector.
  abbrev pub poke_at : ℕ → List A → List A → List A
  poke_at zero ds xs = poke xs ds
  poke_at (suc n) ds [] = []
  poke_at (suc n) ds (x ∷ xs) = x ∷ poke_at n ds xs

  pub length-poke : (xs ds : List A) → length (poke xs ds) ≡ length xs
  length-poke [] ds = refl
  length-poke (x ∷ xs) [] = refl
  length-poke (x ∷ xs) (d ∷ ds) = ap suc (length-poke xs ds)

  pub length-poke_at : (n : ℕ) (ds xs : List A) → length (poke_at n ds xs) ≡ length xs
  length-poke_at zero ds xs = length-poke xs ds
  length-poke_at (suc n) ds [] = refl
  length-poke_at (suc n) ds (x ∷ xs) = ap suc (length-poke_at n ds xs)

  pub take-poke : (xs ds : List A) → length ds ≤ length xs → take (length ds) (poke xs ds) ≡ ds
  take-poke xs [] h = refl
  take-poke [] (d ∷ ds) h = absurd (omega arith)
  take-poke (x ∷ xs) (d ∷ ds) h = ap (◌∷◌ d) (take-poke xs ds (omega arith))

  -- A block that fits is what stands behind the part in front of it.
  pub take-poke_at :
      (n : ℕ) (ds xs : List A)
      → n + length ds ≤ length xs
      → take (n + length ds) (poke_at n ds xs) ≡ take n xs ++ ds
  take-poke_at zero ds xs h =
      let e : zero + length ds ≡ length ds = omega arith in rw e (take-poke xs ds (omega arith))
  take-poke_at (suc n) ds [] h = absurd (omega arith)
  take-poke_at (suc n) ds (x ∷ xs) h =
      let e : suc n + length ds ≡ suc (n + length ds) = omega arith in
      rw e (ap (◌∷◌ x) (take-poke_at n ds xs (omega arith)))

  -- Growing a vector keeps what it holds; the new places hold `d`.
  abbrev pub resize : ℕ → A → List A → List A
  resize zero d xs = []
  resize (suc n) d [] = d ∷ replicate n d
  resize (suc n) d (x ∷ xs) = x ∷ resize n d xs

  pub length-resize : (n : ℕ) (d : A) (xs : List A) → length (resize n d xs) ≡ n
  length-resize zero d xs = refl
  length-resize (suc n) d [] = ap suc (length-replicate n d)
  length-resize (suc n) d (x ∷ xs) = ap suc (length-resize n d xs)

  pub take-resize :
      (k n : ℕ) (d : A) (xs : List A) → k ≤ length xs → k ≤ n → take k (resize n d xs) ≡ take k xs
  take-resize zero n d xs h g = refl
  take-resize (suc k) zero d xs h g = absurd (omega arith)
  take-resize (suc k) (suc n) d [] h g = absurd (omega arith)
  take-resize (suc k) (suc n) d (x ∷ xs) h g =
      ap (◌∷◌ x) (take-resize k n d xs (omega arith) (omega arith))

  pub take-append-drop : (n : ℕ) (xs : List A) → take n xs ++ drop n xs ≡ xs
  take-append-drop zero xs = refl
  take-append-drop (suc n) [] = refl
  take-append-drop (suc n) (x ∷ xs) = ap (◌∷◌ x) (take-append-drop n xs)

  pub drop-poke : (xs ds : List A) → drop (length ds) (poke xs ds) ≡ drop (length ds) xs
  drop-poke [] [] = refl
  drop-poke [] (d ∷ ds) = refl
  drop-poke (x ∷ xs) [] = refl
  drop-poke (x ∷ xs) (d ∷ ds) = drop-poke xs ds
