-- ===== src/Demos/Asteroids/Player/Lives.antt =====
-- The lives of a player, and the calls that it makes.
use enki_net.Common.{
  ℕ, ◌+◌, ◌-◌, ◌%◌, ◌^◌, ◌<◌, ◌≡◌, refl, ap, ◌∙◌, Bool, true, false, not, ◌&&◌, List, [], ◌∷◌, ◌++◌,
  Option, ◌===◌, if◌then◌else◌, Outcome, ok, ◌>>=◌, Bool-cases, inl, inr, arith,
}
use enki_net.Packet.{empty}
use enki_net.Packet.Laws.{Writes, Writes-bind}
use enki_net.Packet.RoundTrip.{put_number-Writes}
use enki_net.Entity.{is_owner}
use enki_net.Timer.{restart, get_elapsed_time}
use enki_net.Demos.InputManager.{InputManager}
use enki_net.Demos.Scalar.{Scalar, Request, creation, deletion, local_creation, call}
use enki_net.Demos.Scalar.Packets.{put_float-Writes}
use enki_net.Demos.Asteroids.{Size, move, cross}
use enki_net.Demos.Asteroids.Asteroid.Spawning.{empty_room}
use enki_net.Demos.Asteroids.Bullet.{Texture, half_of}
use enki_net.Demos.Asteroids.Player.{
  Player, Held, one_less, held_keys, bullet_type, start_invincible_name, stop_invincible_name,
  thrust, steer, brake, limit, moves, max_velocity_length, velocity_length, bullet_packet, fire,
  start_invincible, stop_invincible, handle_collision, calm, update,
}

-- How often a player asks all to show that it was hurt.
abbrev pub hurts : List Request → ℕ
hurts [] = 0
hurts (creation type name owner p ∷ rs) = hurts rs
hurts (deletion id ∷ rs) = hurts rs
hurts (local_creation type name ∷ rs) = hurts rs
hurts (call name args ∷ rs) = (if name === start_invincible_name then 1 else 0) + hurts rs

pub hurts-append : (rs ss : List Request) → hurts (rs ++ ss) ≡ hurts rs + hurts ss
hurts-append [] ss = omega arith
hurts-append (creation type name owner p ∷ rs) ss = hurts-append rs ss
hurts-append (deletion id ∷ rs) ss = hurts-append rs ss
hurts-append (local_creation type name ∷ rs) ss = hurts-append rs ss
hurts-append (call name args ∷ rs) ss = omega (arith, hurts-append rs ss)

-- A player with the same keys and lives.
pub record Kept {F : Type 0} (a b : Player F) : Type 0 where
  pub same_controls : b.controls ≡ a.controls
  pub same_lives : b.lives ≡ a.lives

module _ {F : Type 0} where
  Kept-if : (test : Bool) (a x y : Player F) → Kept a x → Kept a y → Kept a (if test then x else y)
  Kept-if true a x y h g = h
  Kept-if false a x y h g = g

  Kept-next : (a b c : Player F) → Kept a b → Kept b c → Kept a c
  Kept-next a b c h g = record {
    same_controls = g.same_controls ∙ h.same_controls;
    same_lives = g.same_lives ∙ h.same_lives;
  }

  -- A result in which the player has lost a life for each time it was hurt, if `lives` was not negative.
  unfoldable pub Pays : Player F → Outcome (Player F × List Request) → Type 0
  Pays a r =
      (b : Player F) × (sent : List Request) × (r ≡ ok (b, sent))
      × (b.controls ≡ a.controls)
      × (a.lives < 2 ^ 31 → (b.lives < 2 ^ 31) × (b.lives ≡ a.lives - hurts sent))

  pub Pays-ok :
      (a b : Player F) (sent : List Request) → Kept a b → hurts sent ≡ 0 → Pays a (ok (b, sent))
  unfolding Pays
  Pays-ok a b sent kept free =
      (b, sent, refl, kept.same_controls, λ h. omega (arith, free, h, kept.same_lives))

  Pays-if :
      (test : Bool) (a : Player F) (x y : Outcome (Player F × List Request))
      → Pays a x
      → Pays a y
      → Pays a (if test then x else y)
  Pays-if true a x y h g = h
  Pays-if false a x y h g = g

  Pays-choice :
      (test : Bool) (a : Player F) (x y : Player F × List Request)
      → Pays a (ok x)
      → Pays a (ok y)
      → Pays a (ok (if test then x else y))
  Pays-choice true a x y h g = h
  Pays-choice false a x y h g = g

module _ {F : Type 0} (ops : Scalar F) where
  braked : (keys : Held) (dt : F) (c : Player F) → Kept c (brake ops keys dt c)
  unfolding brake
  braked keys dt c = elim (Bool-cases keys.slow) [
    | inr free ↦ rw free (record { same_controls = refl; same_lives = refl })
    | inl slow ↦ elim (Bool-cases (moves ops c)) [
      | inl fast ↦ rw (slow, fast) (record { same_controls = refl; same_lives = refl })
      | inr still ↦ rw (slow, still) (record { same_controls = refl; same_lives = refl })
    ]
  ]

  limited : (d : Player F) → Kept d (limit ops d)
  unfolding limit
  limited d = elim (Bool-cases (ops.lt (max_velocity_length ops) (velocity_length ops d))) [
    | inl fast ↦ rw fast (record { same_controls = refl; same_lives = refl })
    | inr slow ↦ rw slow (record { same_controls = refl; same_lives = refl })
  ]

  moved_lem :
      (keys : Held) (dt : F) (a : Player F)
      → Kept a (limit ops (brake ops keys dt (steer ops keys dt (thrust ops keys dt a))))
  moved_lem keys dt a =
      let b = thrust ops keys dt a in
      let c = steer ops keys dt b in
      let d = brake ops keys dt c in
      Kept-next a d (limit ops d)
        (Kept-next a c d (unfold thrust steer in record { same_controls = refl; same_lives = refl })
          (braked keys dt c))
        (limited d)

  -- The packet of a bullet is written without a fault.
  bullet_packet-Writes :
      (r : ℕ) (a : Player F) → (bs : List ℕ) × Writes (bullet_packet ops r a) empty bs
  unfolding bullet_packet
  bullet_packet-Writes r a =
      let turn = ops.floats.add a.body.rotation (ops.floats.of_int (r % 4)) in
      (
        _,
        Writes-bind _ _ empty _ _ (put_float-Writes ops a.body.x empty empty_room) (λ p1 h1.
            Writes-bind _ _ p1 _ _ (put_float-Writes ops a.body.y p1 h1) (λ p2 h2.
              Writes-bind _ _ p2 _ _ (put_float-Writes ops (ops.literal 300 1) p2 h2) (λ p3 h3.
                Writes-bind _ _ p3 _ _ (put_float-Writes ops turn p3 h3) (λ p4 h4.
                  Writes-bind _ _ p4 _ _ (put_number-Writes 1 a.colour.r p4 h4) (λ p5 h5.
                    Writes-bind _ _ p5 _ _ (put_number-Writes 1 a.colour.g p5 h5)
                      (put_number-Writes 1 a.colour.b)))))),
      )

  fire-Pays : (r : ℕ) (keys : Held) (now : ℕ) (a : Player F) → Pays a (fire ops r keys now a)
  unfolding fire
  fire-Pays r keys now a =
      let p = (bullet_packet-Writes r a).1 in
      let same : Kept a a = record { same_controls = refl; same_lives = refl } in
      Pays-if
        (keys.shoot && ops.lt (ops.literal 1 10) (get_elapsed_time ops.seconds now a.shoot_timer)) a
        (bullet_packet ops r a >>= λ q.
          ok (record a { shoot_timer = restart now }, creation bullet_type bullet_type 0 q ∷ []))
        (ok (a, []))
        (rw p.1 (
          Pays-ok a (record a { shoot_timer = restart now })
            (creation bullet_type bullet_type 0 p.0 ∷ [])
            (record { same_controls = refl; same_lives = refl }) refl))
        (Pays-ok a a [] same refl)

module _ {F : Type 0} (ops : Scalar F) (texture : Texture) (client : Option ℕ) where
  pub calm-Pays :
      (reaches : Bool) (now : ℕ) (a : Player F)
      → Pays a (ok (calm ops texture client reaches now a))
  unfolding calm stop_invincible ◌===◌
  calm-Pays reaches now a =
      elim (Bool-cases
        (ops.lt (ops.literal 1 1) (get_elapsed_time ops.seconds now a.flashing_timer))) [
          | inr soon ↦
              rw soon (Pays-ok a a [] (record { same_controls = refl; same_lives = refl }) refl)
          | inl late ↦ rw late (
              Pays-ok a (if reaches then stop_invincible a else a)
                (call stop_invincible_name [] ∷ [])
                (Kept-if reaches a (stop_invincible a) a
                  (record { same_controls = refl; same_lives = refl })
                  (record { same_controls = refl; same_lives = refl }))
                refl)
        ]

  -- An int that is not negative is counted down to 0, and not below.
  one_less_lem : (lives : ℕ) → lives < 2 ^ 31 → one_less lives ≡ lives - 1
  unfolding one_less
  one_less_lem lives h = ground (arith, h)

  pub handle_collision-Pays :
      (reaches : Bool) (now : ℕ) (a : Player F)
      → Pays a (ok (handle_collision client reaches now a))
  unfolding handle_collision start_invincible Pays ◌===◌
  handle_collision-Pays reaches now a =
      let hurt : Player F = record a { lives = one_less a.lives } in
      let shown : Player F = if reaches then start_invincible now hurt else hurt in
      let kept : Kept hurt shown =
        Kept-if reaches hurt (start_invincible now hurt) hurt
          (record { same_controls = refl; same_lives = refl })
          (record { same_controls = refl; same_lives = refl }) in
      let spared : Pays a (ok (a, [])) = (a, [], refl, refl, λ h. omega (arith, h)) in
      Pays-choice (not (is_owner client a.info)) a (a, []) _ spared
        (Pays-choice (not a.was_damaged) a (shown, call start_invincible_name [] ∷ []) (a, [])
          (
            shown,
            call start_invincible_name [] ∷ [],
            refl,
            kept.same_controls,
            λ h. omega (arith, h, kept.same_lives, one_less_lem a.lives h),
          )
          spared)

  pub update-Pays :
      (m : InputManager) (view : Size F) (reaches : Bool) (r now : ℕ) (dt : F) (a : Player F)
      (keys : Held)
      → held_keys a.controls m ≡ ok keys
      → Pays a (update ops texture client m view reaches r now dt a)
  unfolding update Pays
  update-Pays m view reaches r now dt a keys known =
      let b = limit ops (brake ops keys dt (steer ops keys dt (thrust ops keys dt a))) in
      let moved =
        move ops (ops.floats.mul b.velocity_x dt) (ops.floats.mul b.velocity_y dt) b.body in
      let placed : Player F = record b { body = (cross ops (half_of ops texture) view moved).0 } in
      let kept = moved_lem ops keys dt a in
      let (c, fired, shot, keys1, lives1) = fire-Pays ops r keys now placed in
      let (d, calls, calmed, keys2, lives2) = calm-Pays reaches now c in
      elim (Bool-cases (not (is_owner client a.info))) [
        | inl other ↦ rw other (a, [], refl, refl, λ h. omega (arith, h))
        | inr own ↦ rw own (
          d,
          fired ++ calls,
          rw (known, shot) (ap (λ o. o >>= λ (e, more). ok (e, fired ++ more)) calmed),
          keys2 ∙ keys1 ∙ kept.same_controls,
          λ h.
              let (few1, paid1) = lives1 (omega (arith, h, kept.same_lives)) in
              let (few2, paid2) = lives2 few1 in
              omega (arith, few2, paid2, paid1, kept.same_lives, hurts-append fired calls),
        )
      ]
