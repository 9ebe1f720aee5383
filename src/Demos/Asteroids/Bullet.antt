-- ===== src/Demos/Asteroids/Bullet.antt =====
-- demos/Asteroids/src/Bullet.cpp. The size of its texture is an argument.
use enki_net.Common.{
  ℕ, ◌+◌, ◌/◌, ◌%◌, ◌^◌, ◌<◌, ◌≡◌, refl, Bool, true, false, not, ◌&&◌, List, [], ◌∷◌, Option, leb,
  leb→lt, Bool-cases, inl, inr, if◌then◌else◌, Outcome, ok, ◌>>=◌, arith,
}
use enki_net.Packet.{Packet, can_deserialize}
use enki_net.Packet.Codec.{put_number, get_number}
use enki_net.Entity.{EntityInfo, is_owner}
use enki_net.Demos.Scalar.{Scalar, Request, deletion, get_float}
use enki_net.Demos.Asteroids.{
  Body, Size, Colour, nought, move, cross, serialize_on_tick, deserialize_on_tick,
}

pub record Bullet (F : Type 0) : Type 0 where
  pub info : EntityInfo
  pub body : Body F
  pub colour : Colour
  pub speed : F
  pub velocity_x : F
  pub velocity_y : F
  pub warp_count : ℕ
  pub alive : Bool

-- The width and the height of a texture, an unsigned int each, and the half of it, without a remainder.
pub record Texture : Type 0 where
  pub width : ℕ
  pub height : ℕ

module _ {F : Type 0} (ops : Scalar F) where
  abbrev pub half_of : Texture → Size F
  half_of t = record {
    width = ops.floats.of_int (t.width / 2);
    height = ops.floats.of_int (t.height / 2);
  }

  abbrev pub new_bullet : EntityInfo → Bullet F
  new_bullet info = record {
    info = info;
    body = record { x = nought ops; y = nought ops; rotation = nought ops };
    colour = record { r = 255; g = 255; b = 255 };
    speed = ops.literal 300 1;
    velocity_x = ops.literal 1 1;
    velocity_y = ops.literal 1 1;
    warp_count = 0;
    alive = true;
  }

  -- onSpawn: four floats and a colour.
  unfoldable pub on_spawn : Packet → Bullet F → Outcome (Bullet F)
  on_spawn p a =
      let made = (do
        (x, p1) ← get_float ops p
        (y, p2) ← get_float ops p1
        (speed, p3) ← get_float ops p2
        (rot, p4) ← get_float ops p3
        (r, p5) ← get_number 1 p4
        (g, p6) ← get_number 1 p5
        (b, p7) ← get_number 1 p6
        ok (record a {
          body = record { x = x; y = y; rotation = ops.turned rot };
          colour = record { r = r; g = g; b = b };
          speed = speed;
          velocity_x = ops.floats.mul a.velocity_x (ops.floats.mul (ops.sin_degrees rot) speed);
          velocity_y =
              ops.floats.mul a.velocity_y (ops.floats.mul (ops.neg (ops.cos_degrees rot)) speed);
        })) in
      if can_deserialize (4 ∷ 4 ∷ 4 ∷ 4 ∷ 1 ∷ 1 ∷ 1 ∷ []) p then made else ok a

  unfoldable pub update : Texture → Option ℕ → Size F → F → Bullet F → Bullet F × List Request
  update texture client view dt a =
      let moved =
        move ops (ops.floats.mul a.velocity_x dt) (ops.floats.mul a.velocity_y dt) a.body in
      let crossed = cross ops (half_of texture) view moved in
      let warps = if crossed.1 then (a.warp_count + 1) % 2 ^ 32 else a.warp_count in
      let alive = a.alive && not (leb 2 warps) in
      if not (is_owner client a.info) then (a, []) else (
        record a { body = crossed.0; warp_count = warps; alive = alive },
        if not alive then deletion a.info.id ∷ [] else [],
      )

  unfoldable pub serialize_on_connection : Bullet F → Packet → Outcome Packet
  serialize_on_connection a p0 = do
    p1 ← serialize_on_tick ops a.body p0
    p2 ← put_number 1 a.colour.r p1
    p3 ← put_number 1 a.colour.g p2
    put_number 1 a.colour.b p3

  unfoldable pub deserialize_on_connection : Packet → Bullet F → Outcome (Bullet F)
  deserialize_on_connection p0 a = do
    (body, p1) ← deserialize_on_tick ops p0
    (r, p2) ← get_number 1 p1
    (g, p3) ← get_number 1 p2
    (b, p4) ← get_number 1 p3
    ok (record a { body = body; colour = record { r = r; g = g; b = b } })

unfoldable pub handle_collision : {F : Type 0} → Option ℕ → Bullet F → Bullet F × List Request
handle_collision client a =
    if not (is_owner client a.info)
    then (a, [])
    else if a.alive
    then (record a { alive = false }, deletion a.info.id ∷ [])
    else (a, [])

-- A bullet that is alive has crossed at most once.
abbrev pub IsFlying : {F : Type 0} → Bullet F → Type 0
IsFlying a = a.alive ≡ true → a.warp_count < 2

not_alive : (b : Bool) → b && false ≡ true → ⊥
not_alive b e = ground (arith, e)

few_warps : (alive : Bool) (warps : ℕ) → alive && not (leb 2 warps) ≡ true → warps < 2
few_warps alive warps h = elim (Bool-cases (leb 2 warps)) [
  | inr few ↦ leb→lt 2 warps few
  | inl many ↦ absurd (not_alive alive (rw many at h))
]

chosen-IsFlying :
    {F : Type 0} (test : Bool) (x y : Bullet F × List Request)
    → IsFlying x.0
    → IsFlying y.0
    → IsFlying (if test then x else y).0
chosen-IsFlying true x y h g = h
chosen-IsFlying false x y h g = g

handle_collision-IsFlying :
    {F : Type 0} (client : Option ℕ) (a : Bullet F)
    → IsFlying a
    → IsFlying (handle_collision client a).0
unfolding handle_collision
handle_collision-IsFlying client a flying =
    chosen-IsFlying (not (is_owner client a.info)) (a, []) _ flying
      (chosen-IsFlying a.alive (record a { alive = false }, deletion a.info.id ∷ []) (a, [])
        (λ h. absurd (cc h)) flying)

-- A bullet that is alive has left the window at most once: this holds at the start, and a frame and a collision keep it,
-- whoever owns the bullet. In a frame the owner asks for the deletion of the bullet if it is not alive behind the frame,
-- and else for nothing.
pub update-IsFlying :
    {F : Type 0} (ops : Scalar F) (texture : Texture) (client : Option ℕ) (view : Size F) (dt : F)
    (info : EntityInfo) (a : Bullet F)
    → IsFlying a
    → IsFlying (new_bullet ops info)
      × IsFlying (update ops texture client view dt a).0
      × IsFlying (handle_collision client a).0
      × ((update ops texture client view dt a).1 ≡ (
          if is_owner client a.info && not (update ops texture client view dt a).0.alive
          then deletion a.info.id ∷ []
          else []))
unfolding update
update-IsFlying ops texture client view dt info a flying =
    elim (Bool-cases (is_owner client a.info)) [
      | inr other ↦ (
        (λ h. omega arith),
        rw other flying,
        handle_collision-IsFlying client a flying,
        rw other refl,
      )
      | inl own ↦ (
        (λ h. omega arith),
        rw own (λ h. few_warps a.alive _ h),
        handle_collision-IsFlying client a flying,
        rw own refl,
      )
    ]
