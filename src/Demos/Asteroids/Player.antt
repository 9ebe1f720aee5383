-- ===== src/Demos/Asteroids/Player.antt =====
-- demos/Asteroids/src/Player.cpp. The texture's size, the codes that SFML gives the keys, the result of std::rand and the
-- time are arguments. `reaches` says whether the network manager has a client that is connected: then a call of
-- startInvincible or stopInvincible, which are RemoteAndLocal, runs on the owner's player at once, as Rpc.Calls has it.
mod State
mod Motion
unfoldable pub use State.*
unfoldable pub use Motion.*
pub mod Lives
pub mod Life
use enki_net.Common.{
  ℕ, ◌+◌, ◌-◌, ◌%◌, ◌^◌, Bool, true, false, not, ◌&&◌, List, [], ◌∷◌, ◌++◌, Option, none, some, ltb,
  ◌==◌, if◌then◌else◌, Outcome, ok, fault, ◌>>=◌,
}
use enki_net.Packet.{Packet, empty}
use enki_net.Packet.Codec.{put_number}
use enki_net.Entity.{EntityInfo, is_owner, is_negative}
use enki_net.Timer.{Timer, restart, get_elapsed_time}
use enki_net.Demos.InputManager.{InputManager, is_key_down}
use enki_net.Demos.Scalar.{Scalar, Request, creation, call, put_float}
use enki_net.Demos.Asteroids.{Body, Size, Colour, nought, move, cross}
use enki_net.Demos.Asteroids.Bullet.{Texture, half_of}

-- "Bullet", "startInvincible", "stopInvincible"
abbrev pub bullet_type : List ℕ
bullet_type = 66 ∷ 117 ∷ 108 ∷ 108 ∷ 101 ∷ 116 ∷ []

abbrev pub start_invincible_name : List ℕ
start_invincible_name =
    115 ∷ 116 ∷ 97 ∷ 114 ∷ 116 ∷ 73 ∷ 110 ∷ 118 ∷ 105 ∷ 110 ∷ 99 ∷ 105 ∷ 98 ∷ 108 ∷ 101 ∷ []

abbrev pub stop_invincible_name : List ℕ
stop_invincible_name =
    115 ∷ 116 ∷ 111 ∷ 112 ∷ 73 ∷ 110 ∷ 118 ∷ 105 ∷ 110 ∷ 99 ∷ 105 ∷ 98 ∷ 108 ∷ 101 ∷ []

module _ {F : Type 0} (ops : Scalar F) where
  -- onSpawn: the colour and the keys depend on the owner.
  unfoldable pub on_spawn : KeyCodes → Player F → Player F
  on_spawn codes a =
      let placed : Player F = record a {
        body = record a.body { x = ops.literal 640 1; y = ops.literal 360 1 };
      } in
      if a.info.owner_id == 1
      then record placed {
        colour = record { r = 0; g = 100; b = 200 };
        controls = some codes.letters;
      }
      else if a.info.owner_id == 2
      then record placed {
        colour = record { r = 200; g = 60; b = 60 };
        controls = some codes.arrows;
      }
      else if a.info.owner_id == 3
      then record placed {
        colour = record { r = 60; g = 200; b = 60 };
        controls = some codes.letters;
      }
      else if a.info.owner_id == 4
      then record placed {
        colour = record { r = 200; g = 160; b = 60 };
        controls = some codes.letters;
      }
      else placed

  -- What is put into the packet of a bullet; `r` is the result of std::rand.
  unfoldable pub bullet_packet : ℕ → Player F → Outcome Packet
  bullet_packet r a = do
    p1 ← put_float ops a.body.x empty
    p2 ← put_float ops a.body.y p1
    p3 ← put_float ops (ops.literal 300 1) p2
    p4 ← put_float ops (ops.floats.add a.body.rotation (ops.floats.of_int (r % 4))) p3
    p5 ← put_number 1 a.colour.r p4
    p6 ← put_number 1 a.colour.g p5
    put_number 1 a.colour.b p6

  -- A bullet, if the key is down and the delay is over.
  unfoldable pub fire : ℕ → Held → ℕ → Player F → Outcome (Player F × List Request)
  unfolding bullet_packet
  fire r keys now a =
      let shot =
        (bullet_packet r a >>= λ p.
        ok (record a { shoot_timer = restart now }, creation bullet_type bullet_type 0 p ∷ [])) in
      if keys.shoot && ops.lt (ops.literal 1 10) (get_elapsed_time ops.seconds now a.shoot_timer)
      then shot
      else ok (a, [])

unfoldable pub start_invincible : {F : Type 0} → ℕ → Player F → Player F
start_invincible now a = record a { flashing_timer = restart now; was_damaged = true }

unfoldable pub stop_invincible : {F : Type 0} → Player F → Player F
stop_invincible a = record a { was_damaged = false }

-- The test `lives > 0` on an int, and its decrement, which wraps round.
unfoldable pub one_less : ℕ → ℕ
one_less lives =
    if not (is_negative lives) && ltb 0 lives then (lives + (2 ^ 32 - 1)) % 2 ^ 32 else lives

-- handleCollision
unfoldable pub handle_collision :
    {F : Type 0} → Option ℕ → Bool → ℕ → Player F → Player F × List Request
unfolding start_invincible one_less
handle_collision client reaches now a =
    let hurt : Player _ = record a { lives = one_less a.lives } in
    if not (is_owner client a.info)
    then (a, [])
    else if not a.was_damaged
    then (if reaches then start_invincible now hurt else hurt, call start_invincible_name [] ∷ [])
    else (a, [])

module _ {F : Type 0} (ops : Scalar F) (texture : Texture) (client : Option ℕ) where
  -- The last test of update.
  unfoldable pub calm : Bool → ℕ → Player F → Player F × List Request
  unfolding stop_invincible
  calm reaches now a =
      if ops.lt (ops.literal 1 1) (get_elapsed_time ops.seconds now a.flashing_timer)
      then (if reaches then stop_invincible a else a, call stop_invincible_name [] ∷ [])
      else (a, [])

  unfoldable pub update :
      InputManager → Size F → Bool → ℕ → ℕ → F → Player F → Outcome (Player F × List Request)
  unfolding held_keys thrust steer brake limit fire calm
  update m view reaches r now dt a =
      let play =
        (held_keys a.controls m >>= λ keys.
        let b = limit ops (brake ops keys dt (steer ops keys dt (thrust ops keys dt a))) in
        let moved =
          move ops (ops.floats.mul b.velocity_x dt) (ops.floats.mul b.velocity_y dt) b.body in
        fire ops r keys now (record b { body = (cross ops (half_of ops texture) view moved).0 })
        >>= λ (c, fired). let (d, calls) = calm reaches now c in ok (d, fired ++ calls)) in
      if not (is_owner client a.info) then ok (a, []) else play
