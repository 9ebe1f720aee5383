-- ===== src/Demos/Pong/Ball.antt =====
-- demos/Pong/src/Ball.cpp. How many paddles the scenegraph finds, whether it finds a score, and two results of std::rand
-- are arguments. y_dir is an int, so that -1 is 2 ^ 32 - 1.
pub mod Points
use enki_net.Common.{
  ℕ, ◌+◌, ◌-◌, ◌%◌, ◌^◌, Bool, true, false, not, ◌||◌, List, [], ◌∷◌, ◌++◌, Option, ◌==◌,
  if◌then◌else◌, Outcome, ok, ◌>>=◌,
}
use enki_net.Packet.{Packet}
use enki_net.Entity.{EntityInfo, is_owner}
use enki_net.Demos.Scalar.{Scalar, Request, call, put_float, get_float}

-- "increaseScore1", "increaseScore2"
abbrev pub increase_score_1 : List ℕ
increase_score_1 = 105 ∷ 110 ∷ 99 ∷ 114 ∷ 101 ∷ 97 ∷ 115 ∷ 101 ∷ 83 ∷ 99 ∷ 111 ∷ 114 ∷ 101 ∷ 49 ∷ []

abbrev pub increase_score_2 : List ℕ
increase_score_2 = 105 ∷ 110 ∷ 99 ∷ 114 ∷ 101 ∷ 97 ∷ 115 ∷ 101 ∷ 83 ∷ 99 ∷ 111 ∷ 114 ∷ 101 ∷ 50 ∷ []

pub record Ball (F : Type 0) : Type 0 where
  pub info : EntityInfo
  pub x : F
  pub y : F
  pub moving_left : Bool
  pub y_dir : ℕ
  pub y_speed : F

module _ {F : Type 0} (ops : Scalar F) where
  -- The members of a new ball, and its position after onSpawn.
  abbrev pub new_ball : EntityInfo → Ball F
  new_ball info = record {
    info = info;
    x = ops.literal 320 1;
    y = ops.literal 180 1;
    moving_left = true;
    y_dir = 1;
    y_speed = ops.literal 300 1;
  }

  abbrev pub random_speed : ℕ → F
  random_speed r = ops.floats.of_int (r % 300 + 100)

  -- The ball comes back from behind a side, and the score is told, if there is one.
  unfoldable pub serve : Bool → List ℕ → Bool → ℕ → Ball F → Ball F × List Request
  serve scored name left r b = (
    record b {
      x = ops.literal 304 1;
      y = ops.literal 164 1;
      y_speed = random_speed r;
      moving_left = left;
    },
    if scored then call name [] ∷ [] else [],
  )

  -- The movement to the left or to the right.
  unfoldable pub move_x : Bool → ℕ → F → Ball F → Ball F × List Request
  unfolding serve
  move_x scored r dt b =
      let to_left = ops.floats.add b.x (ops.floats.mul (ops.neg (ops.literal 300 1)) dt) in
      let to_right = ops.floats.add b.x (ops.floats.mul (ops.literal 300 1) dt) in
      if b.moving_left
      then (if ops.lt to_left (ops.neg (ops.literal 64 1))
          then serve scored increase_score_2 false r b
          else (record b { x = to_left }, []))
      else (if ops.lt (ops.literal 672 1) to_right
          then serve scored increase_score_1 true r b
          else (record b { x = to_right }, []))

  -- The movement up or down.
  unfoldable pub move_y : ℕ → F → Ball F → Ball F
  move_y r dt b =
      let above = ops.floats.add b.y (ops.floats.mul (ops.neg b.y_speed) dt) in
      let below = ops.floats.add b.y (ops.floats.mul b.y_speed dt) in
      if b.y_dir == 1
      then (if ops.lt above (ops.literal 0 1)
          then record b { y = above; y_dir = 2 ^ 32 - 1; y_speed = random_speed r }
          else record b { y = above })
      else if b.y_dir == 2 ^ 32 - 1
      then (if ops.lt (ops.literal 328 1) below
          then record b { y = below; y_dir = 1; y_speed = random_speed r }
          else record b { y = below })
      else b

  unfoldable pub update : Option ℕ → ℕ → Bool → ℕ → ℕ → F → Ball F → Ball F × List Request
  unfolding move_x move_y
  update client paddles scored r s dt b =
      if not (paddles == 2) || not (is_owner client b.info)
      then (b, [])
      else (move_y s dt (move_x scored r dt b).0, (move_x scored r dt b).1)

  -- serializeOnConnection moves the ball, and writes nothing.
  unfoldable pub serialize_on_connection : Ball F → Packet → Ball F × Packet
  serialize_on_connection b p = (record b { x = ops.literal 320 1; y = ops.literal 180 1 }, p)

  unfoldable pub deserialize_on_connection : Packet → Ball F → Ball F
  deserialize_on_connection p b = record b { x = ops.literal 320 1; y = ops.literal 180 1 }

  unfoldable pub serialize_on_tick : Ball F → Packet → Outcome Packet
  serialize_on_tick b p = put_float ops b.x p >>= put_float ops b.y

  unfoldable pub deserialize_on_tick : Packet → Ball F → Outcome (Ball F)
  deserialize_on_tick p b = do
    (x, p1) ← get_float ops p
    (y, p2) ← get_float ops p1
    ok (record b { x = x; y = y })
