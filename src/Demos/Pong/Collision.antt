-- ===== src/Demos/Pong/Collision.antt =====
-- demos/Pong/src/Collision.cpp. sf::Rect::intersects is an argument, which takes two rectangles: left, top, width and
-- height; so is a result of std::rand.
use enki_net.Common.{
  ℕ, ◌-◌, ◌%◌, ◌^◌, Bool, true, false, ◌&&◌, ◌||◌, Option, none, some, ◌==◌, if◌then◌else◌,
}
use enki_net.Demos.Scalar.{Scalar}
use enki_net.Demos.Pong.Ball.{Ball}
use enki_net.Demos.Pong.Paddle.{Paddle}

pub record Rect (F : Type 0) : Type 0 where
  pub left : F
  pub top : F
  pub width : F
  pub height : F

module _ {F : Type 0} (ops : Scalar F) (intersects : Rect F → Rect F → Bool) where
  abbrev pub ball_collider : Ball F → Rect F
  ball_collider b = record {
    left = b.x;
    top = b.y;
    width = ops.literal 32 1;
    height = ops.literal 32 1;
  }

  abbrev pub paddle_collider : Paddle F → Rect F
  paddle_collider p = record {
    left = p.x;
    top = p.y;
    width = ops.literal 32 1;
    height = ops.literal 128 1;
  }

  -- What the two paddles do to the ball.
  unfoldable pub bounce : ℕ → Paddle F → Paddle F → Ball F → Ball F
  bounce r paddle1 paddle2 b =
      let first = intersects (ball_collider b) (paddle_collider paddle1) in
      let second = intersects (ball_collider b) (paddle_collider paddle2) in
      let left1 = if first then false else b.moving_left in
      record b {
        moving_left = if second then true else left1;
        y_dir =
            if (first || second) && (b.y_dir == 0)
            then (if r % 2 == 0 then 2 ^ 32 - 1 else 1)
            else b.y_dir;
      }

  -- update, for what the scenegraph finds.
  unfoldable pub update :
      ℕ → Option (Paddle F) → Option (Paddle F) → Option (Ball F) → Option (Ball F)
  unfolding bounce
  update r (some paddle1) (some paddle2) (some b) = some (bounce r paddle1 paddle2 b)
  update r none paddle2 ball = ball
  update r (some paddle1) none ball = ball
  update r (some paddle1) (some paddle2) none = none
