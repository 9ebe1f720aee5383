-- ===== src/Demos/Shooter/Game.antt =====
-- The update of demos/Shooter/src/Game.cpp, and its handler of the server's packets. Which keys were pressed is an argument;
-- the map is made by Demos.MapManager and Demos.Shooter.Tiles. std::to_string is an argument.
use enki_net.Common.{
  ℕ, Bool, false, not, ◌&&◌, ◌||◌, List, [], ◌∷◌, ◌++◌, ◌==◌, if◌then◌else◌, Outcome, ok, ◌>>=◌,
}
use enki_net.Packet.{empty, type_code, connected}
use enki_net.NetworkManager.{NetworkState}
use enki_net.Demos.MapManager.{Image, load_map}
use enki_net.Demos.Scalar.{Scalar, Request, creation}
use enki_net.Demos.Start.{press}
use enki_net.Demos.Asteroids.Game.{player_type, player_prefix}
use enki_net.Demos.Shooter.Tiles.{create_map}

-- `networking` is the static variable of update; `players` are the ids for which a player was created.
pub record Game : Type 0 where
  pub network : NetworkState
  pub networking : Bool
  pub window_active : Bool
  pub players : List ℕ

-- std::set::count
abbrev pub among : ℕ → List ℕ → Bool
among id [] = false
among id (k ∷ ks) = (k == id) || among id ks

module _ {F : Type 0} (ops : Scalar F) (to_string : ℕ → List ℕ) (image : Image) where
  -- The keys S and C, for the id that the client has.
  unfoldable pub update : Bool → Bool → ℕ → Game → Outcome (Game × List Request)
  unfolding press
  update s c client g =
      let started =
        (press s c g.network >>= λ n. load_map image >>= λ m.
        create_map ops to_string client m >>= λ tiles. ok (
          record g { network = n; networking = s || c },
          if s then tiles ++ creation player_type (player_prefix ++ 49 ∷ []) 0 empty ∷ [] else [],
        )) in
      if (not g.networking && g.window_active) && (s || c) then started else ok (g, [])

-- The handler of the server's packets, for the type of a packet and its sender.
unfoldable pub on_packet_received : (ℕ → List ℕ) → ℕ → ℕ → Game → Game × List Request
on_packet_received to_string type sender g =
    if (type == type_code connected) && not (among sender g.players)
    then (
      record g { players = sender ∷ g.players },
      creation player_type (player_prefix ++ to_string sender) sender empty ∷ [],
    )
    else (g, [])
