-- ===== src/Demos/Asteroids/Game.antt =====
-- The update of demos/Asteroids/src/Game.cpp, and its handler of the server's packets. Which keys were pressed in the frame,
-- the results of std::rand and the time are arguments; std::to_string is one too.
pub mod Frames
use enki_net.Common.{
  ℕ, zero, suc, ◌+◌, ◌%◌, Bool, true, false, not, ◌&&◌, ◌||◌, List, [], ◌∷◌, ◌++◌, Option, none,
  some, ◌==◌, if◌then◌else◌, Outcome, ok, ◌>>=◌,
}
use enki_net.Packet.{Packet, empty, type_code, connected, disconnected}
use enki_net.Packet.Codec.{put_number}
use enki_net.Timer.{Timer, restart, get_elapsed_time}
use enki_net.NetworkManager.{NetworkState, is_some}
use enki_net.Demos.Scalar.{Scalar, Request, creation, deletion, local_creation, put_float}
use enki_net.Demos.Start.{press}
use enki_net.Demos.Asteroids.Asteroid.{asteroid_type}

-- "Player", "Player " and "CollisionManager"
abbrev pub player_type : List ℕ
player_type = 80 ∷ 108 ∷ 97 ∷ 121 ∷ 101 ∷ 114 ∷ []

abbrev pub player_prefix : List ℕ
player_prefix = 80 ∷ 108 ∷ 97 ∷ 121 ∷ 101 ∷ 114 ∷ 32 ∷ []

abbrev pub manager_type : List ℕ
manager_type =
    67 ∷ 111 ∷ 108 ∷ 108 ∷ 105 ∷ 115 ∷ 105 ∷ 111 ∷ 110 ∷ 77 ∷ 97 ∷ 110 ∷ 97 ∷ 103 ∷ 101 ∷ 114 ∷ []

-- `networking` is the static variable of update.
pub record Game : Type 0 where
  pub network : NetworkState
  pub networking : Bool
  pub window_active : Bool
  pub asteroid_spawn_timer : Timer

-- The keys that were pressed.
pub record Keys : Type 0 where
  pub f2 : Bool
  pub s : Bool
  pub c : Bool

-- Four results of std::rand.
pub record Rands : Type 0 where
  pub sides : ℕ
  pub x : ℕ
  pub y : ℕ
  pub speed : ℕ

module _ {F : Type 0} (ops : Scalar F) where
  -- The packet of a new asteroid.
  unfoldable pub asteroid_packet : Rands → Outcome Packet
  asteroid_packet r = do
    p1 ← put_number 4 (r.sides % 8 + 5) empty
    p2 ← put_float ops (ops.floats.of_int (r.x % 1280)) p1
    p3 ← put_float ops (ops.floats.of_int (r.y % 720)) p2
    put_float ops (ops.floats.of_int (r.speed % 200 + 50)) p3

  unfoldable pub new_asteroid : Rands → Outcome Request
  unfolding asteroid_packet
  new_asteroid r = asteroid_packet r >>= λ p. ok (creation asteroid_type asteroid_type 0 p)

  -- The loop of the host, for `n` asteroids.
  unfoldable pub new_asteroids : (ℕ → Rands) → ℕ → Outcome (List Request)
  unfolding new_asteroid
  new_asteroids rands zero = ok []
  new_asteroids rands (suc n) = do
    rest ← new_asteroids rands n
    a ← new_asteroid (rands n)
    ok (rest ++ a ∷ [])

  -- The asteroid of a host, once a second and with the key F2.
  unfoldable pub spawn : Keys → ℕ → Rands → Game → Outcome (Game × List Request)
  unfolding new_asteroid
  spawn keys now r g =
      let due =
        keys.f2
        || ops.lt (ops.literal 1 1) (get_elapsed_time ops.seconds now g.asteroid_spawn_timer) in
      let spawned =
        (new_asteroid r >>= λ a. ok (record g { asteroid_spawn_timer = restart now }, a ∷ [])) in
      if is_some g.network.server && due then spawned else ok (g, [])

  -- What is created for a host, with its asteroids, and for a client.
  abbrev pub begun : Keys → List Request → List Request
  begun keys asteroids =
      let hosted =
        if keys.s
        then creation player_type (player_prefix ++ 49 ∷ []) 0 empty
          ∷ local_creation manager_type manager_type
          ∷ asteroids
        else [] in
      let joined = if keys.c then local_creation manager_type manager_type ∷ [] else [] in
      hosted ++ joined

  -- The keys S and C, as long as the game is not on the network.
  unfoldable pub start : Keys → (ℕ → Rands) → Game → Outcome (Game × List Request)
  unfolding press new_asteroids
  start keys rands g =
      let started =
        (press keys.s keys.c g.network >>= λ n. new_asteroids rands 20 >>= λ asteroids.
        ok (record g { network = n; networking = keys.s || keys.c }, begun keys asteroids)) in
      if not g.networking && g.window_active then started else ok (g, [])

  -- update, without its calls of the updates of the network manager and the input manager, which come first, and of the
  -- scenegraph, which comes last.
  unfoldable pub update : Keys → ℕ → Rands → (ℕ → Rands) → Game → Outcome (Game × List Request)
  unfolding spawn start
  update keys now r rands g = do
    (g1, spawned) ← spawn keys now r g
    (g2, begun) ← start keys rands g1
    ok (g2, spawned ++ begun)

-- The handler of the server's packets, for the type of a packet and its sender: `found` is the id of the
-- entity that the scenegraph finds under a name.
unfoldable pub on_packet_received : (ℕ → List ℕ) → (List ℕ → Option ℕ) → ℕ → ℕ → List Request
on_packet_received to_string found type sender =
    let name = player_prefix ++ to_string sender in
    let joined =
      if type == type_code connected then creation player_type name sender empty ∷ [] else [] in
    let left : List Request = elim (found name) [ none ↦ [] | some id ↦ deletion id ∷ [] ] in
    joined ++ (if type == type_code disconnected then left else [])
