-- ===== src/Demos/Shooter/HealthSpawner.antt =====
-- demos/Shooter/src/HealthSpawner.cpp. Its rpc pickedUp changes a player, which the scenegraph finds or not.
use enki_net.Common.{
  ℕ, Bool, true, false, List, [], ◌∷◌, Option, none, some, if◌then◌else◌, Outcome, ok, fault, ◌>>=◌,
}
use enki_net.Packet.{Packet, can_deserialize}
use enki_net.Entity.{EntityInfo, is_owner}
use enki_net.Demos.Scalar.{Scalar, Request, call, put_float, get_float}
use enki_net.Demos.Shooter.Player.{Player, increase_hp}

-- "spawn"
abbrev pub spawn_name : List ℕ
spawn_name = 115 ∷ 112 ∷ 97 ∷ 119 ∷ 110 ∷ []

pub record HealthSpawner (F : Type 0) : Type 0 where
  pub info : EntityInfo
  pub x : F
  pub y : F
  pub pickup_available : Bool
  pub elapsed_spawn_time : F

module _ {F : Type 0} (ops : Scalar F) where
  -- The owner spawns a pickup once a second.
  unfoldable pub update : Option ℕ → F → HealthSpawner F → HealthSpawner F × List Request
  update client dt h =
      let later = ops.floats.add h.elapsed_spawn_time dt in
      if is_owner client h.info
      then (if ops.lt (ops.literal 1 1) later
          then (record h { elapsed_spawn_time = ops.literal 0 1 }, call spawn_name [] ∷ [])
          else (record h { elapsed_spawn_time = later }, []))
      else (h, [])

  unfoldable pub serialize_on_connection : HealthSpawner F → Packet → Outcome Packet
  serialize_on_connection h p = put_float ops h.x p >>= put_float ops h.y

  unfoldable pub deserialize_on_connection : Packet → HealthSpawner F → Outcome (HealthSpawner F)
  deserialize_on_connection p h = do
    (x, p1) ← get_float ops p
    (y, p2) ← get_float ops p1
    ok (record h { x = x; y = y })

  unfoldable pub on_spawn : Packet → HealthSpawner F → Outcome (HealthSpawner F)
  unfolding deserialize_on_connection
  on_spawn p h =
      let read = deserialize_on_connection p h in
      if can_deserialize (4 ∷ 4 ∷ []) p then read else ok h

unfoldable pub spawn : {F : Type 0} → HealthSpawner F → HealthSpawner F
spawn h = record h { pickup_available = true }

-- pickedUp: the pointer that the scenegraph returns is used without a look.
unfoldable pub picked_up :
    {F : Type 0} → Option (Player F) → HealthSpawner F → Outcome (HealthSpawner F × Player F)
unfolding increase_hp
picked_up none h = fault
picked_up (some p) h = ok (record h { pickup_available = false }, increase_hp p)
