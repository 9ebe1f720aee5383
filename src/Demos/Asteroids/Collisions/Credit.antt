-- ===== src/Demos/Asteroids/Collisions/Credit.antt =====
-- How many asteroids a frame of collisions creates.
use enki_net.Common.{
  ℕ, ◌+◌, ◌≡◌, refl, ap, ◌∙◌, Bool, true, false, not, ◌&&◌, List, [], ◌∷◌, ◌++◌, Option, none, some,
  if◌then◌else◌, Outcome, ok, ◌>>=◌, Bool-cases, inl, inr, arith,
}
use enki_net.Entity.{is_owner}
use enki_net.Demos.Scalar.{Scalar, Request}
use enki_net.Demos.Asteroids.Asteroid.{Asteroid, Rands, can_split, handle_collision as hit_asteroid}
use enki_net.Demos.Asteroids.Asteroid.Splitting.{
  creations, creations-append, split-run, unmoved, hit_lem, same_can,
}
use enki_net.Demos.Asteroids.Bullet.{Bullet, handle_collision as hit_bullet}
use enki_net.Demos.Asteroids.Player.{Player, handle_collision as hit_player}
use enki_net.Demos.Asteroids.Collisions.{
  circles_colliding, check_bullet, check_bullets, check_player, check_players, Arena,
  check_asteroids, update,
}

abbrev pub two_if : Bool → ℕ
two_if test = if test then 2 else 0

module _ {F : Type 0} (ops : Scalar F) (client : Option ℕ) where
  -- What an asteroid can still create: two, if it is the client's, alive and can split.
  abbrev pub credit : Asteroid F → ℕ
  credit a = two_if ((is_owner client a.info && a.alive) && can_split ops a)

  abbrev pub credits : List (Asteroid F) → ℕ
  credits [] = 0
  credits (a ∷ rest) = credit a + credits rest

  hit_asteroid-Spends :
      (r s : Rands) (a : Asteroid F)
      → (b : Asteroid F) × (sent : List Request) × (hit_asteroid ops client r s a ≡ ok (b, sent))
        × (creations sent + credit b ≡ credit a)
  hit_asteroid-Spends r s a = elim (Bool-cases (is_owner client a.info && a.alive)) [
    | inr h ↦ (a, [], unmoved ops client r s a h, omega arith)
    | inl h ↦
        let dead : Asteroid F = record a { alive = false } in
        let (sent, splits, made) = split-run ops client r s dead in
        let nothing : credit dead ≡ 0 = gone (is_owner client a.info) (can_split ops dead) in
        (
          dead,
          sent,
          hit_lem ops client r s a h ∙ splits,
          total (creations sent) (credit dead) made nothing ∙ rw (h, same_can ops client a) refl,
        )
  ]
    where
      gone : (own can : Bool) → two_if ((own && false) && can) ≡ 0
      gone own can = ground arith

      total :
          (n m : ℕ)
          → n ≡ two_if (can_split ops (record a { alive = false }))
          → m ≡ 0
          → n + m ≡ two_if (can_split ops (record a { alive = false }))
      total n m h g = omega (arith, h, g)

  hit_bullet-free : (b : Bullet F) → creations (hit_bullet client b).1 ≡ 0
  unfolding hit_bullet
  hit_bullet-free b = ground arith

  hit_player-free :
      (reaches : Bool) (now : ℕ) (p : Player F) → creations (hit_player client reaches now p).1 ≡ 0
  unfolding hit_player
  hit_player-free reaches now p = ground arith

  -- A result with an asteroid, something else and requests, in which the asteroid has paid for the creations.
  abbrev Spends : {A : Type 0} → Asteroid F → Outcome (Asteroid F × A × List Request) → Type 0
  Spends {A} a r =
      (b : Asteroid F) × (x : A) × (sent : List Request) × (r ≡ ok (b, x, sent))
      × (creations sent + credit b ≡ credit a)

  Spends-if :
      {A : Type 0} (test : Bool) (a : Asteroid F) (x y : Outcome (Asteroid F × A × List Request))
      → Spends a x
      → Spends a y
      → Spends a (if test then x else y)
  Spends-if true a x y h g = h
  Spends-if false a x y h g = g

  check_bullet-Spends :
      (r s : Rands) (a : Asteroid F) (b : Bullet F) → Spends a (check_bullet ops client r s a b)
  unfolding check_bullet
  check_bullet-Spends r s a b =
      let (c, asked, run, spent) = hit_asteroid-Spends r s a in
      let more = (hit_bullet client b).1 in
      Spends-if (circles_colliding ops a.body a.radius b.body (ops.literal 5 1)) a
        (hit_asteroid ops client r s a >>= λ (c', asked').
          ok (c', (hit_bullet client b).0, asked' ++ more))
        (ok (a, b, []))
        (
          c,
          (hit_bullet client b).0,
          asked ++ more,
          rw run refl,
          omega (arith, spent, creations-append asked more, hit_bullet-free b),
        )
        (a, b, [], refl, omega arith)

  check_bullets-Spends :
      (r s : Rands) (a : Asteroid F) (bs : List (Bullet F))
      → Spends a (check_bullets ops client r s a bs)
  unfolding check_bullets
  check_bullets-Spends r s a [] = (a, [], [], refl, omega arith)
  check_bullets-Spends r s a (b ∷ bs) =
      let (a1, b1, asked, run, spent) = check_bullet-Spends r s a b in
      let (a2, bs1, more, later, rest) = check_bullets-Spends r s a1 bs in
      (
        a2,
        b1 ∷ bs1,
        asked ++ more,
        rw (run, later) refl,
        omega (arith, spent, rest, creations-append asked more),
      )

  check_player-Spends :
      (reaches : Bool) (now : ℕ) (r s : Rands) (a : Asteroid F) (p : Option (Player F))
      → Spends a (check_player ops client reaches now r s a p)
  unfolding check_player
  check_player-Spends reaches now r s a none = (a, none, [], refl, omega arith)
  check_player-Spends reaches now r s a (some p) =
      let (c, asked, run, spent) = struck in
      let more = (hit_player client reaches now p).1 in
      Spends-if (circles_colliding ops a.body a.radius p.body (ops.literal 16 1)) a
        ((if not p.was_damaged then hit_asteroid ops client r s a else ok (a, []))
          >>= λ (c', asked'). ok (c', some (hit_player client reaches now p).0, asked' ++ more))
        (ok (a, some p, []))
        (
          c,
          some (hit_player client reaches now p).0,
          asked ++ more,
          ap next run,
          omega (arith, spent, creations-append asked more, hit_player-free reaches now p),
        )
        (a, some p, [], refl, omega arith)
    where
      next :
          Outcome (Asteroid F × List Request)
          → Outcome (Asteroid F × Option (Player F) × List Request)
      next o = o >>= λ (c', asked'). ok (
        c',
        some (hit_player client reaches now p).0,
        asked' ++ (hit_player client reaches now p).1,
      )

      Struck : Outcome (Asteroid F × List Request) → Type 0
      Struck o =
          (c : Asteroid F) × (asked : List Request) × (o ≡ ok (c, asked))
          × (creations asked + credit c ≡ credit a)

      either : (test : Bool) → Struck (if test then hit_asteroid ops client r s a else ok (a, []))
      either true = hit_asteroid-Spends r s a
      either false = (a, [], refl, omega arith)

      struck : Struck (if not p.was_damaged then hit_asteroid ops client r s a else ok (a, []))
      struck = either (not p.was_damaged)

  check_players-Spends :
      (reaches : Bool) (now : ℕ) (r s : Rands) (a : Asteroid F) (ps : List (Option (Player F)))
      → Spends a (check_players ops client reaches now r s a ps)
  unfolding check_players
  check_players-Spends reaches now r s a [] = (a, [], [], refl, omega arith)
  check_players-Spends reaches now r s a (p ∷ ps) =
      let (a1, p1, asked, run, spent) = check_player-Spends reaches now r s a p in
      let (a2, ps1, more, later, rest) = check_players-Spends reaches now r s a1 ps in
      (
        a2,
        p1 ∷ ps1,
        asked ++ more,
        rw (run, later) refl,
        omega (arith, spent, rest, creations-append asked more),
      )

module _ {F : Type 0} (ops : Scalar F) (client : Option ℕ) (rands : ℕ → Rands) (reaches : Bool)
    (now : ℕ) where
  check_asteroids-Spends :
      (k : ℕ) (es : List (Asteroid F)) (bs : List (Bullet F)) (ps : List (Option (Player F)))
      → (after : Arena F) × (sent : List Request) × (check_asteroids ops client rands reaches now k
            es bs ps
          ≡ ok (after, sent))
        × (creations sent + credits ops client after.asteroids ≡ credits ops client es)
  unfolding check_asteroids
  check_asteroids-Spends k [] bs ps =
      (record { asteroids = []; bullets = bs; players = ps }, [], refl, omega arith)
  check_asteroids-Spends k (a ∷ rest) bs ps =
      let (a1, bs1, shot, run1, spent1) =
        check_bullets-Spends ops client (rands (k + k)) (rands (k + k + 1)) a bs in
      let (a2, ps1, rammed, run2, spent2) =
        check_players-Spends ops client reaches now (rands (k + k)) (rands (k + k + 1)) a1 ps in
      let (arena, more, run3, spent3) = check_asteroids-Spends (k + 1) rest bs1 ps1 in
      (
        record arena { asteroids = a2 ∷ arena.asteroids },
        shot ++ (rammed ++ more),
        rw (run1, run2, run3) refl,
        omega (
          arith,
          spent1,
          spent2,
          spent3,
          creations-append shot (rammed ++ more),
          creations-append rammed more,
        ),
      )

  -- A frame of the collision manager returns, and for each asteroid of the client that was alive and can split, and that
  -- something hits in the frame, it creates two asteroids: the creations and what the asteroids behind the frame
  -- can still create are together what they could create before it, at two for each of the client's asteroids that
  -- is alive and can split.
  pub update-credits :
      (arena : Arena F)
      → (after : Arena F) × (sent : List Request) × (update ops client rands reaches now arena
          ≡ ok (after, sent))
        × (creations sent + credits ops client after.asteroids ≡ credits ops client arena.asteroids)
  unfolding update
  update-credits arena = check_asteroids-Spends 0 arena.asteroids arena.bullets arena.players
