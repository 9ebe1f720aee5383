-- ===== src/Demos/Pong/Paddle.antt =====
-- demos/Pong/src/Paddle.cpp. Which keys are down, the results of std::rand and the time are arguments. `rate` is the
-- network manager's network_send_rate; the paddle's network_tick_rate is 1.
pub mod Field
pub mod Ticks
use enki_net.Common.{
  ℕ, ◌/◌, ◌%◌, Bool, true, false, not, ◌&&◌, List, [], ◌∷◌, Option, ◌===◌, if◌then◌else◌, Outcome,
  ok, ◌>>=◌,
}
use enki_net.Packet.{Packet}
use enki_net.Packet.Codec.{put_number, get_number}
use enki_net.Entity.{EntityInfo, is_owner}
use enki_net.Timer.{Timer, restart, get_elapsed_time}
use enki_net.Demos.Scalar.{Scalar, Request, call, put_float, get_float}

-- "Paddle 1", "Paddle 2", "setColour"
abbrev pub paddle_1 : List ℕ
paddle_1 = 80 ∷ 97 ∷ 100 ∷ 100 ∷ 108 ∷ 101 ∷ 32 ∷ 49 ∷ []

abbrev pub paddle_2 : List ℕ
paddle_2 = 80 ∷ 97 ∷ 100 ∷ 100 ∷ 108 ∷ 101 ∷ 32 ∷ 50 ∷ []

abbrev pub set_colour_name : List ℕ
set_colour_name = 115 ∷ 101 ∷ 116 ∷ 67 ∷ 111 ∷ 108 ∷ 111 ∷ 117 ∷ 114 ∷ []

pub record Colour : Type 0 where
  pub r : ℕ
  pub g : ℕ
  pub b : ℕ

-- The sprite, and the latest_sprite, which is the last position that the network told.
pub record Paddle (F : Type 0) : Type 0 where
  pub info : EntityInfo
  pub x : F
  pub y : F
  pub colour : Colour
  pub interpolation_enabled : Bool
  pub latest_x : F
  pub latest_y : F
  pub latest_network_y : F
  pub last_interpolation_y : F
  pub interpolation_timer : Timer

-- The keys of an event, and those that are down in a frame.
pub data Key : Type 0 where
  f2 num3 other : Key

pub record Held : Type 0 where
  pub w : Bool
  pub s : Bool
  pub up : Bool
  pub down : Bool

-- setColour: the arguments are cast to uint8_t.
unfoldable pub set_colour : {F : Type 0} → ℕ → ℕ → ℕ → Paddle F → Paddle F
set_colour r g b p = record p { colour = record { r = r % 256; g = g % 256; b = b % 256 } }

-- input, for a key that is pressed.
unfoldable pub input :
    {F : Type 0} → Option ℕ → ℕ → ℕ → ℕ → Key → Paddle F → Paddle F × List Request
input client r g b f2 p =
    let shown = record p {
      y = if p.interpolation_enabled then p.latest_y else p.y;
      x = if p.interpolation_enabled then p.latest_x else p.x;
      latest_x = if p.interpolation_enabled then p.latest_x else p.x;
      latest_y = if p.interpolation_enabled then p.latest_y else p.y;
      interpolation_enabled = not p.interpolation_enabled;
    } in
    let switched = record shown { latest_network_y = shown.y; last_interpolation_y = shown.y } in
    if not (is_owner client p.info) then (switched, []) else (p, [])
input client r g b num3 p =
    (p, call set_colour_name ((4, r % 255) ∷ (4, g % 255) ∷ (4, b % 255) ∷ []) ∷ [])
input client r g b other p = (p, [])

module _ {F : Type 0} (ops : Scalar F) where
  -- onSpawn; the position of the second paddle is 640 - 64.
  unfoldable pub on_spawn : Paddle F → Paddle F
  on_spawn p =
      let first = p.info.name === paddle_1 in
      let x = if first then ops.literal 32 1 else ops.literal 576 1 in
      let colour : Colour =
        if first then record { r = 0; g = 150; b = 255 } else record { r = 220; g = 25; b = 25 } in
      record p {
        x = x;
        y = ops.literal 180 1;
        colour = colour;
        latest_x = x;
        latest_y = ops.literal 180 1;
      }

  abbrev pub moved : Bool → Bool → F → F → F
  moved up down dt y =
      let y1 =
        if up then ops.floats.add y (ops.floats.mul (ops.neg (ops.literal 200 1)) dt) else y in
      if down then ops.floats.add y1 (ops.floats.mul (ops.literal 200 1) dt) else y1

  -- The keys move the paddle that has their name, if it is the client's.
  unfoldable pub steer : Option ℕ → Held → F → Paddle F → Paddle F
  steer client keys dt p =
      if (p.info.name === paddle_1) && is_owner client p.info
      then record p { y = moved keys.w keys.s dt p.y }
      else if (p.info.name === paddle_2) && is_owner client p.info
      then record p { y = moved keys.up keys.down dt p.y }
      else p

  -- The two tests that keep the client's paddle on the field, from 0 to 360 - 128.
  unfoldable pub clamp : F → F
  clamp y =
      let y1 = if ops.lt y (ops.literal 0 1) then ops.literal 0 1 else y in
      if ops.lt (ops.literal 232 1) y1 then ops.literal 232 1 else y1

  -- The interpolation of another client's paddle.
  unfoldable pub interpolate : ℕ → ℕ → Paddle F → Paddle F
  interpolate rate now p =
      let gap = ops.floats.sub p.latest_network_y p.last_interpolation_y in
      let network_delay = ops.floats.div (ops.literal 1 1) (ops.floats.of_int (rate / 1)) in
      let interpolation_time = get_elapsed_time ops.seconds now p.interpolation_timer in
      let percent =
        ops.one_minus
          (ops.floats.div (ops.floats.sub network_delay interpolation_time) network_delay) in
      if ops.lt (ops.literal 64 1) (ops.abs gap)
      then record p { y = p.latest_network_y; last_interpolation_y = p.latest_network_y }
      else record p { y = ops.floats.add p.last_interpolation_y (ops.floats.mul percent gap) }

  unfoldable pub update : Option ℕ → ℕ → Held → ℕ → F → Paddle F → Paddle F
  unfolding steer clamp interpolate
  update client rate keys now dt p =
      let q = steer client keys dt p in
      if is_owner client p.info
      then record q { y = clamp q.y }
      else if p.interpolation_enabled
      then interpolate rate now q
      else q

  unfoldable pub serialize_on_tick : Paddle F → Packet → Outcome Packet
  serialize_on_tick p q = put_float ops p.x q >>= put_float ops p.y

  unfoldable pub deserialize_on_tick : ℕ → Packet → Paddle F → Outcome (Paddle F)
  deserialize_on_tick now q p = do
    (x, q1) ← get_float ops q
    (y, q2) ← get_float ops q1
    let told = record p { last_interpolation_y = p.y; latest_network_y = y }
    ok (
        if p.interpolation_enabled
        then record told { latest_x = x; latest_y = y; interpolation_timer = restart now }
        else record told { x = x; y = y })

  unfoldable pub serialize_on_connection : Paddle F → Packet → Outcome Packet
  unfolding serialize_on_tick
  serialize_on_connection p q0 = do
    q1 ← put_number 1 p.colour.r q0
    q2 ← put_number 1 p.colour.g q1
    q3 ← put_number 1 p.colour.b q2
    serialize_on_tick p q3

  unfoldable pub deserialize_on_connection : ℕ → Packet → Paddle F → Outcome (Paddle F)
  unfolding deserialize_on_tick
  deserialize_on_connection now q0 p = do
    (r, q1) ← get_number 1 q0
    (g, q2) ← get_number 1 q1
    (b, q3) ← get_number 1 q2
    deserialize_on_tick now q3 (record p { colour = record { r = r; g = g; b = b } })
