-- ===== src/Demos/Asteroids/Game/Frames.antt =====
-- The frames of the game of asteroids, and what the asteroids are that it creates.
use enki_net.Common.{
  ℕ, zero, suc, ◌+◌, ◌%◌, ◌≡◌, refl, sym, ap, ◌∙◌, Bool, true, false, not, ◌&&◌, ◌||◌, List, [],
  ◌∷◌, ◌++◌, if◌then◌else◌, Outcome, ok, fault, ◌>>=◌, inl, inr, Bool-cases, arith,
}
use enki_net.Packet.{Packet, empty, le_bytes}
use enki_net.Packet.Laws.{Writes, Writes-bind, Ready}
use enki_net.Packet.RoundTrip.{put_number-Writes}
use enki_net.NetworkManager.{stopped, is_some}
use enki_net.Timer.{restart, get_elapsed_time}
use enki_net.Demos.Scalar.{Scalar, Request, creation}
use enki_net.Demos.Scalar.Packets.{IsScalar, put_float-Writes}
use enki_net.Demos.Start.{press, press-stopped, press-ok}
use enki_net.Demos.Asteroids.Asteroid.{
  Asteroid, asteroid_type, construct_asteroid, on_spawn, Rands as ShapeRands,
}
use enki_net.Demos.Asteroids.Asteroid.Spawning.{empty_room, on_spawn-Ready}
use enki_net.Demos.Asteroids.Game.{
  Game, Keys, Rands, asteroid_packet, new_asteroid, new_asteroids, begun, spawn, start, update,
}

module _ {F : Type 0} (ops : Scalar F) where
  abbrev pub number_x : Rands → F
  number_x r = ops.floats.of_int (r.x % 1280)

  abbrev pub number_y : Rands → F
  number_y r = ops.floats.of_int (r.y % 720)

  abbrev pub number_speed : Rands → F
  number_speed r = ops.floats.of_int (r.speed % 200 + 50)

  abbrev pub asteroid_bytes : Rands → List ℕ
  asteroid_bytes r =
      le_bytes 4 (r.sides % 8 + 5)
      ++ (le_bytes 4 (ops.bits (number_x r))
          ++ (le_bytes 4 (ops.bits (number_y r)) ++ le_bytes 4 (ops.bits (number_speed r))))

  asteroid_packet-Writes : (r : Rands) → Writes (asteroid_packet ops r) empty (asteroid_bytes r)
  unfolding asteroid_packet
  asteroid_packet-Writes r =
      Writes-bind _ _ empty (le_bytes 4 (r.sides % 8 + 5)) _
        (put_number-Writes 4 (r.sides % 8 + 5) empty empty_room)
        (λ q room.
          Writes-bind _ _ q (le_bytes 4 (ops.bits (number_x r))) _
            (put_float-Writes ops (number_x r) q room)
            (λ q' room'.
              Writes-bind _ _ q' (le_bytes 4 (ops.bits (number_y r))) _
                (put_float-Writes ops (number_y r) q' room')
                (put_float-Writes ops (number_speed r))))

  -- The packet that the game makes for a new asteroid has 16 bytes behind its header, and an asteroid that is spawned from
  -- these bytes has the sides, from 5 to 12, the position in the window and the speed that were drawn.
  pub asteroid_packet-on_spawn :
      (r : Rands) (r' : ShapeRands) (b : Asteroid F) (q : Packet) (rest : List ℕ)
      → IsScalar ops
      → Ready q (asteroid_bytes r ++ rest)
      → Writes (asteroid_packet ops r) empty (asteroid_bytes r)
        × (on_spawn ops r' q b
            ≡ construct_asteroid ops r'
                (r.sides % 8 + 5)
                (number_x r)
                (number_y r)
                (record b { speed = number_speed r }))
  asteroid_packet-on_spawn r r' b q rest scalar ready = (
    asteroid_packet-Writes r,
    on_spawn-Ready ops r' b q (r.sides % 8 + 5) (ops.bits (number_x r)) (ops.bits (number_y r))
          (ops.bits (number_speed r)) rest (omega arith) (scalar.fits (number_x r))
          (scalar.fits (number_y r)) (scalar.fits (number_speed r)) ready
        ∙ same (number_x r) (number_y r) (number_speed r) (scalar.of_bits-bits (number_x r))
            (scalar.of_bits-bits (number_y r)) (scalar.of_bits-bits (number_speed r)),
  )
    where
      same :
          {x' y' s' : F} (x y s : F)
          → x' ≡ x
          → y' ≡ y
          → s' ≡ s
          → construct_asteroid ops r' (r.sides % 8 + 5) x' y' (record b { speed = s' })
            ≡ construct_asteroid ops r' (r.sides % 8 + 5) x y (record b { speed = s })
      same x y s e f g =
          λ i. construct_asteroid ops r' (r.sides % 8 + 5) (e i) (f i) (record b { speed = g i })

  new_asteroid-ok : (r : Rands) → (a : Request) × (new_asteroid ops r ≡ ok a)
  unfolding new_asteroid
  new_asteroid-ok r =
      let p = asteroid_packet-Writes r in (creation asteroid_type asteroid_type 0 p.0, rw p.1 refl)

  new_asteroids-ok :
      (rands : ℕ → Rands) (n : ℕ) → (sent : List Request) × (new_asteroids ops rands n ≡ ok sent)
  unfolding new_asteroids
  new_asteroids-ok rands zero = ([], refl)
  new_asteroids-ok rands (suc n) =
      let (rest, first) = new_asteroids-ok rands n in
      let (a, last) = new_asteroid-ok (rands n) in (rest ++ a ∷ [], rw (first, last) refl)

-- A game that has not begun networking has neither a server nor a client.
abbrev pub IsGame : Game → Type 0
IsGame g = g.networking ≡ false → g.network ≡ stopped

-- Whether both keys count in a frame.
abbrev pub clash : Keys → Game → Bool
clash keys g = (not g.networking && g.window_active) && (keys.s && keys.c)

module _ {F : Type 0} (ops : Scalar F) where
  -- The same game, but for its timer.
  record Alike (g h : Game) : Type 0 where
    pub same_network : h.network ≡ g.network
    pub same_networking : h.networking ≡ g.networking
    pub same_active : h.window_active ≡ g.window_active

  abbrev Spawned : Game → Outcome (Game × List Request) → Type 0
  Spawned g o = (h : Game) × (sent : List Request) × (o ≡ ok (h, sent)) × Alike g h

  Spawned-if :
      (test : Bool) (g : Game) (x y : Outcome (Game × List Request))
      → Spawned g x
      → Spawned g y
      → Spawned g (if test then x else y)
  Spawned-if true g x y h k = h
  Spawned-if false g x y h k = k

  spawn-Spawned :
      (keys : Keys) (now : ℕ) (r : Rands) (g : Game) → Spawned g (spawn ops keys now r g)
  unfolding spawn
  spawn-Spawned keys now r g =
      let (a, made) = new_asteroid-ok ops r in
      let due =
        keys.f2
        || ops.lt (ops.literal 1 1) (get_elapsed_time ops.seconds now g.asteroid_spawn_timer) in
      Spawned-if (is_some g.network.server && due) g
        (new_asteroid ops r >>= λ a'. ok (record g { asteroid_spawn_timer = restart now }, a' ∷ []))
        (ok (g, []))
        (
          record g { asteroid_spawn_timer = restart now },
          a ∷ [],
          rw made refl,
          record { same_network = refl; same_networking = refl; same_active = refl },
        )
        (g, [], refl, record { same_network = refl; same_networking = refl; same_active = refl })

  and-left : (x y : Bool) → x && y ≡ true → x ≡ true
  and-left x y e = ground (arith, e)

  and-right : (x y : Bool) → x && y ≡ true → y ≡ true
  and-right x y e = ground (arith, e)

  not-true : (x : Bool) → not x ≡ true → x ≡ false
  not-true x e = ground (arith, e)

  idle : (g : Game) → IsGame g → not g.networking && g.window_active ≡ true → g.network ≡ stopped
  idle g game free = game (not-true g.networking (and-left (not g.networking) g.window_active free))

  start-fault :
      (keys : Keys) (rands : ℕ → Rands) (g : Game)
      → IsGame g
      → clash keys g ≡ true
      → start ops keys rands g ≡ fault
  unfolding start
  start-fault keys rands g game h =
      let free : not g.networking && g.window_active ≡ true = and-left _ (keys.s && keys.c) h in
      let both : keys.s && keys.c ≡ true = and-right (not g.networking && g.window_active) _ h in
      let failed : press keys.s keys.c g.network ≡ fault =
        ap (press keys.s keys.c) (idle g game free) ∙ press-stopped keys.s keys.c ∙ rw both refl in
      rw (free, failed) refl

  start-ok :
      (keys : Keys) (rands : ℕ → Rands) (g : Game)
      → IsGame g
      → clash keys g ≡ false
      → (h : Game) × (sent : List Request) × (start ops keys rands g ≡ ok (h, sent)) × IsGame h
  unfolding start
  start-ok keys rands g game h = elim (Bool-cases (not g.networking && g.window_active)) [
    | inr busy ↦ (g, [], rw busy refl, game)
    | inl free ↦
        let single : keys.s && keys.c ≡ false = rw free at h in
        let (n, pressed, same) = press-ok keys.s keys.c single in
        let (made, created) = new_asteroids-ok ops rands 20 in
        let run : press keys.s keys.c g.network ≡ ok n =
          ap (press keys.s keys.c) (idle g game free) ∙ pressed in
        (
          record g { network = n; networking = keys.s || keys.c },
          begun ops keys made,
          rw (free, run, created) refl,
          same,
        )
  ]

  -- A game that has not begun networking has neither a server nor a client, and a frame keeps this, as far as the spawning
  -- of asteroids and the keys S and C go; the updates of the network manager, of the input manager and of the scenegraph
  -- around them are left out. This part of a frame returns, unless the keys S and C were both pressed while the window is
  -- active and the game has not begun networking: then it starts a host and, in the same frame, a client beside it, whose
  -- assert fails.
  pub update-IsGame :
      (keys : Keys) (now : ℕ) (r : Rands) (rands : ℕ → Rands) (g : Game)
      → IsGame g
      → (clash keys g ≡ true → update ops keys now r rands g ≡ fault)
        × (clash keys g ≡ false
            → (h : Game) × (sent : List Request) × (update ops keys now r rands g ≡ ok (h, sent))
              × IsGame h)
  unfolding update
  update-IsGame keys now r rands g game =
      let (g1, spawned, run, same) = spawn-Spawned keys now r g in
      let game1 : IsGame g1 = λ e. same.same_network ∙ game (sym same.same_networking ∙ e) in
      let clashes : clash keys g1 ≡ clash keys g =
        rw (same.same_networking, same.same_active) refl in
      (
        λ h. rw (run, start-fault keys rands g1 game1 (clashes ∙ h)) refl,
        λ h.
            let (g2, begun, later, game2) = start-ok keys rands g1 game1 (clashes ∙ h) in
            (g2, spawned ++ begun, rw (run, later) refl, game2),
      )
