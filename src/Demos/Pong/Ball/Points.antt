-- ===== src/Demos/Pong/Ball/Points.antt =====
-- The points that a ball gives while nothing stops it.
use enki_net.Common.{
  ℕ, ◌+◌, ◌-◌, ◌^◌, ◌≡◌, refl, ap, ◌∙◌, Bool, true, false, not, ◌||◌, List, [], ◌∷◌, ◌++◌, Option,
  ◌==◌, ◌===◌, if◌then◌else◌, Bool-cases, inl, inr, arith,
}
use enki_net.Entity.{is_owner}
use enki_net.Demos.Scalar.{Scalar, Request, creation, deletion, local_creation, call}
use enki_net.Demos.Pong.Ball.{
  Ball, increase_score_1, increase_score_2, serve, move_x, move_y, update,
}

-- The calls of a function.
abbrev pub calls : List ℕ → List Request → ℕ
calls name [] = 0
calls name (creation type n owner p ∷ rs) = calls name rs
calls name (deletion id ∷ rs) = calls name rs
calls name (local_creation type n ∷ rs) = calls name rs
calls name (call n args ∷ rs) = (if n === name then 1 else 0) + calls name rs

calls-append :
    (name : List ℕ) (rs ss : List Request) → calls name (rs ++ ss) ≡ calls name rs + calls name ss
calls-append name [] ss = omega arith
calls-append name (creation type n owner p ∷ rs) ss = calls-append name rs ss
calls-append name (deletion id ∷ rs) ss = calls-append name rs ss
calls-append name (local_creation type n ∷ rs) ss = calls-append name rs ss
calls-append name (call n args ∷ rs) ss = omega (arith, calls-append name rs ss)

abbrev pub one_if : Bool → ℕ
one_if b = if b then 1 else 0

-- The frames of a ball: the number of paddles, two results of std::rand, and the time that has passed.
pub record Frame (F : Type 0) : Type 0 where
  pub paddles : ℕ
  pub first : ℕ
  pub second : ℕ
  pub dt : F

module _ {F : Type 0} (ops : Scalar F) (client : Option ℕ) where
  -- The ball and its calls after frames in which there is a score.
  unfoldable pub fly : List (Frame F) → Ball F → Ball F × List Request
  unfolding update
  fly [] b = (b, [])
  fly (f ∷ fs) b =
      let (b', asked) = update ops client f.paddles true f.first f.second f.dt b in
      let (b'', more) = fly fs b' in (b'', asked ++ more)

  -- A result in which the points and the direction agree.
  abbrev Alternates : Bool → Ball F × List Request → Type 0
  Alternates left (b, sent) =
      calls increase_score_2 sent + one_if b.moving_left ≡ calls increase_score_1 sent + one_if left

  Alternates-if :
      (test left : Bool) (x y : Ball F × List Request)
      → Alternates left x
      → Alternates left y
      → Alternates left (if test then x else y)
  Alternates-if true left x y h g = h
  Alternates-if false left x y h g = g

  Alternates-side :
      (left : Bool) (x y : Ball F × List Request)
      → (left ≡ true → Alternates true x)
      → (left ≡ false → Alternates false y)
      → Alternates left (if left then x else y)
  Alternates-side true x y h g = h refl
  Alternates-side false x y h g = g refl

  same-Alternates : (left : Bool) (b : Ball F) → b.moving_left ≡ left → Alternates left (b, [])
  same-Alternates left b h = ap (λ (t : Bool). calls increase_score_2 [] + one_if t) h

  served :
      (scored : List ℕ) (left : Bool) (r : ℕ) (b : Ball F)
      → calls increase_score_2 (call scored [] ∷ []) + one_if left
        ≡ calls increase_score_1 (call scored [] ∷ []) + one_if (not left)
      → Alternates (not left) (serve ops true scored left r b)
  unfolding serve
  served scored left r b h = h

  move_x-Alternates :
      (r : ℕ) (dt : F) (b : Ball F) → Alternates b.moving_left (move_x ops true r dt b)
  unfolding move_x ◌===◌
  move_x-Alternates r dt b =
      let to_left = ops.floats.add b.x (ops.floats.mul (ops.neg (ops.literal 300 1)) dt) in
      let to_right = ops.floats.add b.x (ops.floats.mul (ops.literal 300 1) dt) in
      Alternates-side b.moving_left _ _
        (λ left.
          Alternates-if (ops.lt to_left (ops.neg (ops.literal 64 1))) true
            (serve ops true increase_score_2 false r b) (record b { x = to_left }, [])
            (served increase_score_2 false r b refl)
            (same-Alternates true (record b { x = to_left }) left))
        (λ right.
          Alternates-if (ops.lt (ops.literal 672 1) to_right) false
            (serve ops true increase_score_1 true r b) (record b { x = to_right }, [])
            (served increase_score_1 true r b refl)
            (same-Alternates false (record b { x = to_right }) right))

  move_y-direction : (r : ℕ) (dt : F) (b : Ball F) → (move_y ops r dt b).moving_left ≡ b.moving_left
  unfolding move_y
  move_y-direction r dt b =
      let above = ops.floats.add b.y (ops.floats.mul (ops.neg b.y_speed) dt) in
      let below = ops.floats.add b.y (ops.floats.mul b.y_speed dt) in
      elim (Bool-cases (b.y_dir == 1)) [
        | inl up ↦ elim (Bool-cases (ops.lt above (ops.literal 0 1))) [
          | inl out ↦ rw (up, out) refl
          | inr within ↦ rw (up, within) refl
        ]
        | inr not_up ↦ elim (Bool-cases (b.y_dir == 2 ^ 32 - 1)) [
          | inl down ↦ elim (Bool-cases (ops.lt (ops.literal 328 1) below)) [
            | inl out ↦ rw (not_up, down, out) refl
            | inr within ↦ rw (not_up, down, within) refl
          ]
          | inr still ↦ rw (not_up, still) refl
        ]
      ]

  update-Alternates :
      (f : Frame F) (b : Ball F)
      → Alternates b.moving_left (update ops client f.paddles true f.first f.second f.dt b)
  unfolding update
  update-Alternates f b =
      let aside = move_x ops true f.first f.dt b in
      Alternates-if (not (f.paddles == 2) || not (is_owner client b.info)) b.moving_left (b, [])
        (move_y ops f.second f.dt aside.0, aside.1) (same-Alternates b.moving_left b refl)
        (ap (λ (t : Bool). calls increase_score_2 aside.1 + one_if t)
            (move_y-direction f.second f.dt aside.0)
          ∙ move_x-Alternates f.first f.dt b)

  -- Through any frames in which no paddle turns the ball, the points alternate: a ball that starts to the left and ends to the
  -- right has called increaseScore2 once more than increaseScore1, one that starts to the right and ends to the left once
  -- less, and else the two are called equally often.
  pub fly-points :
      (fs : List (Frame F)) (b : Ball F)
      → calls increase_score_2 (fly fs b).1 + one_if (fly fs b).0.moving_left
        ≡ calls increase_score_1 (fly fs b).1 + one_if b.moving_left
  unfolding fly
  fly-points [] b = refl
  fly-points (f ∷ fs) b =
      let first = update ops client f.paddles true f.first f.second f.dt b in
      omega (
        arith,
        update-Alternates f b,
        fly-points fs first.0,
        calls-append increase_score_1 first.1 (fly fs first.0).1,
        calls-append increase_score_2 first.1 (fly fs first.0).1,
      )
