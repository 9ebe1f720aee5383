-- ===== src/NetworkManager.antt =====
-- src/EnkiNet/Managers/NetworkManager.hpp and NetworkManager.cpp: which server and which client a
-- program has, and when its network ticks. A failed assert is a `fault`, as in a build without NDEBUG.
pub mod Pointers
use enki_net.Common.{
  ℕ, Bool, true, false, not, ◌&&◌, ◌||◌, Option, none, some, Outcome, ok, fault, if◌then◌else◌,
}

pub data ServerKind : Type 0 where
  server_host server_standard : ServerKind

pub data ClientKind : Type 0 where
  client_host client_standard : ClientKind

pub record NetworkState : Type 0 where
  pub server : Option ServerKind
  pub client : Option ClientKind

abbrev pub stopped : NetworkState
stopped = record { server = none; client = none }

abbrev pub is_some : {A : Type 0} → Option A → Bool
is_some none = false
is_some (some a) = true

-- startHost: the two are pointed at each other.
unfoldable pub start_host : NetworkState → Outcome NetworkState
start_host s =
    if is_some s.server || is_some s.client
    then fault
    else ok (record { server = some server_host; client = some client_host })

-- startServer does not ask for a client.
unfoldable pub start_server : NetworkState → Outcome NetworkState
start_server s = if is_some s.server then fault else ok (record s { server = some server_standard })

unfoldable pub start_client : NetworkState → Outcome NetworkState
start_client s =
    if is_some s.server || is_some s.client
    then fault
    else ok (record s { client = some client_standard })

unfoldable pub stop_server : NetworkState → NetworkState
stop_server s = record s { server = none }

unfoldable pub stop_client : NetworkState → NetworkState
stop_client s = record s { client = none }

unfoldable pub stop_host : NetworkState → NetworkState
unfolding stop_server stop_client
stop_host s = stop_server (stop_client s)

-- Whether update emits on_network_tick: `late` is the test of the timer, `others` says whether the
-- server has connected clients, and `connected` is the client's isConnected.
unfoldable pub ticks : Bool → Bool → Bool → NetworkState → Bool
ticks late others connected s =
    late
    && ((is_some s.server && (others || is_some s.client))
        || (not (is_some s.server) && is_some s.client && connected))
