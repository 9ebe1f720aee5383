-- ===== src/Demos/Shooter/Player.antt =====
-- demos/Shooter/src/Player.cpp. The position of the mouse, the keys that are down and the time are arguments, as are the
-- degrees that the two lines with std::atan2 make of a direction. The texts and the view are left out.
use enki_net.Common.{
  ℕ, ◌+◌, ◌%◌, ◌^◌, Bool, not, ◌&&◌, ◌||◌, List, [], ◌∷◌, ◌++◌, map, Option, if◌then◌else◌, Outcome,
  ok, ◌>>=◌,
}
use enki_net.Packet.{Packet}
use enki_net.Packet.Floats.{write_compressed_float, read_compressed_float}
use enki_net.Entity.{EntityInfo, is_owner}
use enki_net.Timer.{Timer, restart, get_elapsed_time}
use enki_net.Demos.Scalar.{Scalar, Request, call}

-- "shoot"
abbrev pub shoot_name : List ℕ
shoot_name = 115 ∷ 104 ∷ 111 ∷ 111 ∷ 116 ∷ []

-- A line of a shot: its ends, the alpha of its start, and how long it still lives.
pub record Line (F : Type 0) : Type 0 where
  pub start_x : F
  pub start_y : F
  pub end_x : F
  pub end_y : F
  pub alpha : ℕ
  pub life : F

pub record Player (F : Type 0) : Type 0 where
  pub info : EntityInfo
  pub x : F
  pub y : F
  pub rotation : F
  pub hp : ℕ
  pub lines : List (Line F)
  pub shoot_timer : Timer
  pub map_width : F
  pub map_height : F

-- The keys W, A, S and D and the left button, and the position of the mouse.
pub record Controls (F : Type 0) : Type 0 where
  pub w : Bool
  pub a : Bool
  pub s : Bool
  pub d : Bool
  pub button : Bool
  pub mouse_x : F
  pub mouse_y : F

-- increaseHP, of an int.
unfoldable pub increase_hp : {F : Type 0} → Player F → Player F
increase_hp p = record p { hp = (p.hp + 1) % 2 ^ 32 }

module _ {F : Type 0} (ops : Scalar F) where
  -- The two ages of a line in update, and those that are left.
  unfoldable pub age : F → Line F → Line F
  age dt l = record l {
    alpha =
        ops.int_of (ops.floats.mul (ops.literal 255 1) (ops.floats.div l.life (ops.literal 1 4)))
        % 256;
    life = ops.floats.sub l.life dt;
  }

  unfoldable pub living : List (Line F) → List (Line F)
  living [] = []
  living (l ∷ ls) =
      let rest = living ls in if ops.le l.life (ops.literal 0 1) then rest else l ∷ rest

  abbrev pub length_of : F → F → F
  length_of dx dy = ops.sqrt (ops.floats.add (ops.floats.mul dx dx) (ops.floats.mul dy dy))

  -- One part of the move, for one of the direction and its length.
  abbrev pub walk_step : F → F → F → F
  walk_step part long dt =
      ops.floats.mul (ops.floats.mul (ops.floats.div part long) (ops.literal 300 1)) dt

  -- The direction of the keys, and the move.
  unfoldable pub walk : Controls F → F → Player F → Player F
  walk c dt p =
      let one = ops.literal 1 1 in
      let y1 = if c.w then ops.floats.sub (ops.literal 0 1) one else ops.literal 0 1 in
      let x1 = if c.a then ops.floats.sub (ops.literal 0 1) one else ops.literal 0 1 in
      let dy = if c.s then ops.floats.add y1 one else y1 in
      let dx = if c.d then ops.floats.add x1 one else x1 in
      let long = length_of dx dy in
      if not (ops.eq dx (ops.literal 0 1)) || not (ops.eq dy (ops.literal 0 1))
      then record p {
        x = ops.floats.add p.x (walk_step dx long dt);
        y = ops.floats.add p.y (walk_step dy long dt);
      }
      else p

  -- The shot, which is a call that all run.
  unfoldable pub fire : Controls F → ℕ → Player F → Player F × List Request
  fire c now p =
      if c.button && ops.lt (ops.literal 1 10) (get_elapsed_time ops.seconds now p.shoot_timer)
      then (
        record p { shoot_timer = restart now },
        call shoot_name ((4, ops.bits c.mouse_x) ∷ (4, ops.bits c.mouse_y) ∷ []) ∷ [],
      )
      else (p, [])

  -- `degrees` is what std::atan2 and the next line make of a direction.
  unfoldable pub update :
      (F → F → F) → Option ℕ → Bool → Controls F → ℕ → F → Player F → Player F × List Request
  unfolding age living walk fire
  update degrees client window_active c now dt p =
      let aged = record p { lines = living (map (age dt) p.lines) } in
      let shot = fire c now aged in
      let moved = walk c dt shot.0 in
      let dx = ops.floats.sub c.mouse_x moved.x in
      let dy = ops.floats.sub c.mouse_y moved.y in
      let long = length_of dx dy in
      let turned = ops.turned (degrees (ops.floats.div dy long) (ops.floats.div dx long)) in
      if not (is_owner client p.info) || not window_active
      then (aged, [])
      else (record moved { rotation = turned }, shot.1)

  -- shoot
  unfoldable pub shoot : F → F → Player F → Player F
  shoot x y p =
      let rads =
        ops.floats.mul p.rotation (ops.floats.div (ops.literal 31415 10000) (ops.literal 180 1)) in
      let line : Line F = record {
        start_x = ops.floats.add p.x (ops.floats.mul (ops.cos rads) (ops.literal 30 1));
        start_y = ops.floats.add p.y (ops.floats.mul (ops.sin rads) (ops.literal 30 1));
        end_x = x;
        end_y = y;
        alpha = 255;
        life = ops.literal 1 4;
      } in
      record p { lines = p.lines ++ line ∷ [] }

  unfoldable pub serialize_on_tick : Player F → Packet → Outcome Packet
  serialize_on_tick p q0 = do
    q1 ← write_compressed_float ops.floats (ops.literal 0 1) p.map_width (ops.literal 1 100) p.x q0
    q2 ← write_compressed_float ops.floats (ops.literal 0 1) p.map_height (ops.literal 1 100) p.y q1
    write_compressed_float ops.floats (ops.literal 0 1) (ops.literal 360 1) (ops.literal 1 100)
        p.rotation q2

  unfoldable pub deserialize_on_tick : Packet → Player F → Outcome (Player F)
  deserialize_on_tick q0 p = do
    (x, q1) ← read_compressed_float ops.floats (ops.literal 0 1) p.map_width (ops.literal 1 100) q0
    (y, q2) ← read_compressed_float ops.floats (ops.literal 0 1) p.map_height (ops.literal 1 100) q1
    (r, q3) ←
        read_compressed_float ops.floats (ops.literal 0 1) (ops.literal 360 1) (ops.literal 1 100)
          q2
    ok (record p { x = x; y = y; rotation = ops.turned r })
