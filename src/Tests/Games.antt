-- ===== src/Tests/Games.antt =====
-- The rules of the games in demos at concrete inputs, over whole numbers.
use enki_net.Common.{
  ℕ, ◌+◌, ◌-◌, ◌^◌, ◌<◌, arith, ◌≡◌, refl, Bool, true, false, List, [], ◌∷◌, Option, none, some, ok,
  fault,
}
use enki_net.Entity.{is_owner}
use enki_net.NetworkManager.{stopped}
use enki_net.Demos.InputManager.{InputManager, new_input_manager}
use enki_net.Demos.Scalar.{Request}
use enki_net.Demos.Asteroids.{Size}
use enki_net.Demos.Asteroids.Asteroid.Splitting.{creations}
use enki_net.Demos.Asteroids.Bullet.{new_bullet}
use enki_net.Demos.Asteroids.Player.{Player, Controls, new_player, held_keys, Held as HeldKeys}
use enki_net.Demos.Asteroids.Player.Lives.{hurts}
use enki_net.Demos.Asteroids.Player.Life.{Event, frame, collision, stop, live, live-lives}
use enki_net.Demos.Asteroids.Collisions.{Arena, update as check_collisions}
use enki_net.Demos.Asteroids.Collisions.Credit.{credits, update-credits}
use enki_net.Demos.Asteroids.Game.{Game, Keys, update as update_game, Rands as GameRands}
use enki_net.Demos.Asteroids.Game.Frames.{IsGame, clash, update-IsGame}
use enki_net.Demos.Pong.Paddle.{Paddle, update as update_paddle, paddle_1}
use enki_net.Demos.Pong.Paddle.Field.{LiteralsCompare, OnField, update-OnField}
use enki_net.Tests.Worlds.{tank}
use enki_net.Tests.Scalars.{whole, draw, rock}

-- Two asteroids, a bullet and a player at the same place.
abbrev ship : Player ℕ
ship = record (new_player whole tank 0) {
  controls = some (record { up = 0; down = 1; left = 2; right = 3; slow = 4; shoot = 5 });
}

abbrev arena : Arena ℕ
arena = record {
  asteroids = rock whole ∷ rock whole ∷ [];
  bullets = new_bullet whole tank ∷ [];
  players = some ship ∷ none ∷ [];
}

update-credits_example :
    (after : Arena ℕ) × (sent : List Request) × (check_collisions whole
        (some 3)
        (λ k. draw)
        true
        70
        arena
      ≡ ok (after, sent))
    × (creations sent + credits whole (some 3) after.asteroids
        ≡ credits whole (some 3) arena.asteroids)
update-credits_example = update-credits whole (some 3) (λ k. draw) true 70 arena

-- Six keys, none of which is down.
abbrev keys : InputManager
keys = new_input_manager 6 0

abbrev window : Size ℕ
window = record { width = 1280; height = 720 }

abbrev events : List (Bool × ℕ × Event ℕ)
events =
    (true, 10, collision)
    ∷ (true, 10, collision)
    ∷ (true, 20, frame keys window 0 1)
    ∷ (false, 30, collision)
    ∷ (true, 40, stop)
    ∷ []

abbrev KeysKnown : (c : Option Controls) → Type 0
KeysKnown c = (h : HeldKeys) × (held_keys c keys ≡ ok h)

ship_keys : KeysKnown ship.controls
unfolding held_keys
ship_keys = (
  record { up = false; down = false; left = false; right = false; slow = false; shoot = false },
  refl,
)

live-lives_example :
    (b : Player ℕ) × (sent : List Request) × (live whole
        (record { width = 32; height = 32 })
        (some 3)
        events
        ship
      ≡ ok (b, sent))
    × (b.lives < 2 ^ 31)
    × (b.lives ≡ 10 - hurts sent)
live-lives_example =
    live-lives whole (record { width = 32; height = 32 }) (some 3) events ship (omega arith)
      (tt, (tt, (ship_keys, (tt, (tt, tt)))))

whole-LiteralsCompare : LiteralsCompare whole
whole-LiteralsCompare n m h g = refl

-- A paddle below the field.
abbrev paddle : Paddle ℕ
paddle = record {
  info = record tank { name = paddle_1 };
  x = 32;
  y = 300;
  colour = record { r = 0; g = 150; b = 255 };
  interpolation_enabled = false;
  latest_x = 32;
  latest_y = 300;
  latest_network_y = 0;
  last_interpolation_y = 0;
  interpolation_timer = record { start_time = 0 };
}

update-OnField_example :
    OnField whole
      (update_paddle whole
        (some 3)
        60
        (record { w = true; s = false; up = false; down = false })
        70
        1
        paddle).y
unfolding is_owner
update-OnField_example =
    update-OnField whole whole-LiteralsCompare (some 3) 60
      (record { w = true; s = false; up = false; down = false }) 70 1 paddle refl

abbrev idle_game : Game
idle_game = record {
  network = stopped;
  networking = false;
  window_active = true;
  asteroid_spawn_timer = record { start_time = 0 };
}

abbrev both_keys : Keys
both_keys = record { f2 = false; s = true; c = true }

abbrev drawn : GameRands
drawn = record { sides = 3; x = 4; y = 5; speed = 6 }

update-IsGame_example :
    (clash both_keys idle_game ≡ true
      → update_game whole both_keys 70 drawn (λ k. drawn) idle_game ≡ fault)
    × (clash both_keys idle_game ≡ false
        → (h : Game) × (sent : List Request) × (update_game whole both_keys 70 drawn
              (λ k. drawn)
              idle_game
            ≡ ok (h, sent))
          × IsGame h)
update-IsGame_example = update-IsGame whole both_keys 70 drawn (λ k. drawn) idle_game (λ e. refl)
