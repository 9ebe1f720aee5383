-- ===== src/Demos/Asteroids/Collisions.antt =====
-- demos/Asteroids/src/CollisionManager.cpp. The asteroids and the bullets are in the order in which the scenegraph finds
-- them; the four players are those with the names "Player 1" to "Player 4". The results of std::rand are arguments, six for each
-- asteroid, which is split at most once.
pub mod Credit
use enki_net.Common.{
  ℕ, ◌+◌, Bool, true, false, not, List, [], ◌∷◌, ◌++◌, Option, none, some, if◌then◌else◌, Outcome,
  ok, ◌>>=◌,
}
use enki_net.Demos.Scalar.{Scalar, Request}
use enki_net.Demos.Asteroids.{Body}
use enki_net.Demos.Asteroids.Asteroid.{Asteroid, Rands, handle_collision as hit_asteroid}
use enki_net.Demos.Asteroids.Bullet.{Bullet, handle_collision as hit_bullet}
use enki_net.Demos.Asteroids.Player.{Player, handle_collision as hit_player}

module _ {F : Type 0} (ops : Scalar F) where
  -- circlesColliding, for the positions and the radii of two circles.
  unfoldable pub circles_colliding : Body F → F → Body F → F → Bool
  circles_colliding a r b s =
      let dx = ops.floats.sub a.x b.x in
      let dy = ops.floats.sub a.y b.y in
      ops.lt (ops.sqrt (ops.floats.add (ops.floats.mul dx dx) (ops.floats.mul dy dy)))
        (ops.floats.add r s)

module _ {F : Type 0} (ops : Scalar F) (client : Option ℕ) where
  -- The body of the loop over the bullets.
  unfoldable pub check_bullet :
      Rands → Rands → Asteroid F → Bullet F → Outcome (Asteroid F × Bullet F × List Request)
  unfolding circles_colliding
  check_bullet r s a b =
      let hit =
        (hit_asteroid ops client r s a >>= λ (a', asked).
        let (b', more) = hit_bullet client b in ok (a', b', asked ++ more)) in
      if circles_colliding ops a.body a.radius b.body (ops.literal 5 1) then hit else ok (a, b, [])

  unfoldable pub check_bullets :
      Rands
      → Rands
      → Asteroid F
      → List (Bullet F)
      → Outcome (Asteroid F × List (Bullet F) × List Request)
  unfolding check_bullet
  check_bullets r s a [] = ok (a, [], [])
  check_bullets r s a (b ∷ bs) = do
    (a1, b1, asked) ← check_bullet r s a b
    (a2, bs1, more) ← check_bullets r s a1 bs
    ok (a2, b1 ∷ bs1, asked ++ more)

  -- playerCheck
  unfoldable pub check_player :
      Bool
      → ℕ
      → Rands
      → Rands
      → Asteroid F
      → Option (Player F)
      → Outcome (Asteroid F × Option (Player F) × List Request)
  unfolding circles_colliding
  check_player reaches now r s a none = ok (a, none, [])
  check_player reaches now r s a (some p) =
      let struck = hit_asteroid ops client r s a in
      let hit =
        ((if not p.was_damaged then struck else ok (a, [])) >>= λ (a', asked).
        let (p', more) = hit_player client reaches now p in ok (a', some p', asked ++ more)) in
      if circles_colliding ops a.body a.radius p.body (ops.literal 16 1)
      then hit
      else ok (a, some p, [])

  unfoldable pub check_players :
      Bool
      → ℕ
      → Rands
      → Rands
      → Asteroid F
      → List (Option (Player F))
      → Outcome (Asteroid F × List (Option (Player F)) × List Request)
  unfolding check_player
  check_players reaches now r s a [] = ok (a, [], [])
  check_players reaches now r s a (p ∷ ps) = do
    (a1, p1, asked) ← check_player reaches now r s a p
    (a2, ps1, more) ← check_players reaches now r s a1 ps
    ok (a2, p1 ∷ ps1, asked ++ more)

-- What the collision manager finds in the scene.
pub record Arena (F : Type 0) : Type 0 where
  pub asteroids : List (Asteroid F)
  pub bullets : List (Bullet F)
  pub players : List (Option (Player F))

module _ {F : Type 0} (ops : Scalar F) (client : Option ℕ) (rands : ℕ → Rands) (reaches : Bool)
    (now : ℕ) where
  -- The loop over the asteroids, from the `k`-th on.
  unfoldable pub check_asteroids :
      ℕ
      → List (Asteroid F)
      → List (Bullet F)
      → List (Option (Player F))
      → Outcome (Arena F × List Request)
  unfolding check_bullets check_players
  check_asteroids k [] bs ps = ok (record { asteroids = []; bullets = bs; players = ps }, [])
  check_asteroids k (a ∷ rest) bs ps = do
    (a1, bs1, shot) ← check_bullets ops client (rands (k + k)) (rands (k + k + 1)) a bs
    (a2, ps1, rammed) ←
        check_players ops client reaches now (rands (k + k)) (rands (k + k + 1)) a1 ps
    (arena, more) ← check_asteroids (k + 1) rest bs1 ps1
    ok (record arena { asteroids = a2 ∷ arena.asteroids }, shot ++ (rammed ++ more))

  unfoldable pub update : Arena F → Outcome (Arena F × List Request)
  unfolding check_asteroids
  update arena = check_asteroids 0 arena.asteroids arena.bullets arena.players
