-- ===== src/Tests/Managers.antt =====
-- The network manager at concrete inputs: a host that was started.
use enki_net.Common.{◌≡◌, refl, some}
use enki_net.NetworkManager.{NetworkState, server_host, client_host, start_host}
use enki_net.NetworkManager.Pointers.{Reach, start, next, starts_host, Reach-HasPeer}

abbrev hosting : NetworkState
hosting = record { server = some server_host; client = some client_host }

hosting-Reach : Reach hosting
unfolding start_host
hosting-Reach = next start (starts_host hosting refl)

Reach-HasPeer_example : hosting.server ≡ some server_host
Reach-HasPeer_example = Reach-HasPeer hosting hosting-Reach refl
