-- ===== src/Demos/Asteroids/Player/Life.antt =====
-- A player through any events: how many lives are left.
use enki_net.Common.{
  ℕ, ◌-◌, ◌^◌, ◌<◌, ◌≡◌, refl, Bool, List, [], ◌∷◌, ◌++◌, Option, Outcome, ok, ◌>>=◌, arith,
}
use enki_net.Demos.InputManager.{InputManager}
use enki_net.Demos.Scalar.{Scalar, Request}
use enki_net.Demos.Asteroids.{Size}
use enki_net.Demos.Asteroids.Bullet.{Texture}
use enki_net.Demos.Asteroids.Player.{
  Player, Controls, Held, held_keys, start_invincible, stop_invincible, handle_collision, update,
}
use enki_net.Demos.Asteroids.Player.Lives.{
  hurts, hurts-append, Pays, Pays-ok, handle_collision-Pays, update-Pays,
}

-- What happens to a player: a frame, a collision, or a call that comes from the network.
pub data Event (F : Type 0) : Type 0 where
  frame : InputManager → Size F → ℕ → F → Event F
  collision start stop : Event F

module _ {F : Type 0} (ops : Scalar F) (texture : Texture) (client : Option ℕ) where
  unfoldable pub happen : Event F → Bool → ℕ → Player F → Outcome (Player F × List Request)
  happen (frame m view r dt) reaches now a = update ops texture client m view reaches r now dt a
  happen collision reaches now a = ok (handle_collision client reaches now a)
  happen start reaches now a = ok (start_invincible now a, [])
  happen stop reaches now a = ok (stop_invincible a, [])

  -- The player and its requests after the events, each with whether a call runs at once, and with its time.
  unfoldable pub live : List (Bool × ℕ × Event F) → Player F → Outcome (Player F × List Request)
  unfolding happen
  live [] a = ok (a, [])
  live ((reaches, now, e) ∷ es) a = do
    (b, asked) ← happen e reaches now a
    (c, more) ← live es b
    ok (c, asked ++ more)

  -- In every frame the input manager knows the keys of the player.
  abbrev pub Known : Option Controls → Event F → Type 0
  Known c (frame m view r dt) = (keys : Held) × (held_keys c m ≡ ok keys)
  Known c collision = Unit {0}
  Known c start = Unit {0}
  Known c stop = Unit {0}

  abbrev pub AllKnown : Option Controls → List (Bool × ℕ × Event F) → Type 0
  AllKnown c [] = Unit {0}
  AllKnown c ((reaches, now, e) ∷ es) = Known c e × AllKnown c es

  happen-Pays :
      (e : Event F) (reaches : Bool) (now : ℕ) (a : Player F)
      → Known a.controls e
      → Pays a (happen e reaches now a)
  unfolding happen
  happen-Pays (frame m view r dt) reaches now a known =
      update-Pays ops texture client m view reaches r now dt a known.0 known.1
  happen-Pays collision reaches now a known = handle_collision-Pays ops texture client reaches now a
  happen-Pays start reaches now a known =
      unfold start_invincible in
      Pays-ok a (start_invincible now a) [] (record { same_controls = refl; same_lives = refl })
        refl
  happen-Pays stop reaches now a known =
      unfold stop_invincible in
      Pays-ok a (stop_invincible a) [] (record { same_controls = refl; same_lives = refl }) refl

  -- If the int `lives` of a player is not negative, then through any frames, collisions and calls from the network, at
  -- any times, in which the input manager knows the player's keys, the code returns, and the player loses a life for each
  -- time that it asks all to show that it was hurt, as long as it has one: `lives` counts down to 0, and does not get
  -- negative.
  pub live-lives :
      (es : List (Bool × ℕ × Event F)) (a : Player F)
      → a.lives < 2 ^ 31
      → AllKnown a.controls es
      → (b : Player F) × (sent : List Request) × (live es a ≡ ok (b, sent))
        × (b.lives < 2 ^ 31)
        × (b.lives ≡ a.lives - hurts sent)
  unfolding live Pays
  live-lives [] a few known = (a, [], refl, few, omega (arith, few))
  live-lives ((reaches, now, e) ∷ es) a few known =
      let (b, asked, run, same, paid) = happen-Pays e reaches now a known.0 in
      let (few', less) = paid few in
      let (c, more, later, few'', rest) = live-lives es b few' (rw same known.1) in
      (
        c,
        asked ++ more,
        rw (run, later) refl,
        few'',
        omega (arith, rest, less, hurts-append asked more),
      )
