-- ===== src/Demos/Asteroids/Player/State.antt =====
-- The members of Player in demos/Asteroids/src/Player.hpp, and which of the player's keys are down.
use enki_net.Common.{ℕ, Bool, false, Option, none, some, Outcome, ok, fault, ◌>>=◌}
use enki_net.Entity.{EntityInfo}
use enki_net.Timer.{Timer, restart}
use enki_net.Demos.InputManager.{InputManager, is_key_down}
use enki_net.Demos.Scalar.{Scalar}
use enki_net.Demos.Asteroids.{Body, Colour, nought}

-- The keys of a player.
pub record Controls : Type 0 where
  pub up : ℕ
  pub down : ℕ
  pub left : ℕ
  pub right : ℕ
  pub slow : ℕ
  pub shoot : ℕ

-- The controls of the players 1, 3 and 4, and those of the player 2, in the codes of SFML.
pub record KeyCodes : Type 0 where
  pub letters : Controls
  pub arrows : Controls

-- `controls` is none as long as the members are not initialized; `lives` is an int, as its bit pattern.
pub record Player (F : Type 0) : Type 0 where
  pub info : EntityInfo
  pub controls : Option Controls
  pub body : Body F
  pub colour : Colour
  pub velocity_x : F
  pub velocity_y : F
  pub lives : ℕ
  pub was_damaged : Bool
  pub flashing_timer : Timer
  pub shoot_timer : Timer

-- Which keys of the player are down.
pub record Held : Type 0 where
  pub up : Bool
  pub down : Bool
  pub left : Bool
  pub right : Bool
  pub slow : Bool
  pub shoot : Bool

unfoldable pub held_keys : Option Controls → InputManager → Outcome Held
unfolding is_key_down
held_keys none m = fault
held_keys (some c) m = do
  up ← is_key_down c.up m
  down ← is_key_down c.down m
  left ← is_key_down c.left m
  right ← is_key_down c.right m
  slow ← is_key_down c.slow m
  shoot ← is_key_down c.shoot m
  ok (record { up = up; down = down; left = left; right = right; slow = slow; shoot = shoot })

module _ {F : Type 0} (ops : Scalar F) where
  abbrev pub new_player : EntityInfo → ℕ → Player F
  new_player info now = record {
    info = info;
    controls = none;
    body = record { x = nought ops; y = nought ops; rotation = nought ops };
    colour = record { r = 255; g = 255; b = 255 };
    velocity_x = nought ops;
    velocity_y = nought ops;
    lives = 10;
    was_damaged = false;
    flashing_timer = restart now;
    shoot_timer = restart now;
  }
