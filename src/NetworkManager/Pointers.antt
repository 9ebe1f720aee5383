-- ===== src/NetworkManager/Pointers.antt =====
-- The pointers between the server and the client of a host.
use enki_net.Common.{◌≡◌, none, some, ok, ◌⊎◌, arith}
use enki_net.NetworkManager.{
  NetworkState, server_host, client_host, client_standard, stopped, start_host, start_server,
  start_client, stop_server, stop_client, stop_host,
}

-- The local client of a host has a host's server to point at.
abbrev pub HasPeer : NetworkState → Type 0
HasPeer s = s.client ≡ some client_host → s.server ≡ some server_host

-- The calls of a program that stops the two of a host together, or the client first.
pub data Step (s : NetworkState) : NetworkState → Type 0 where
  starts_host : (t : NetworkState) → start_host s ≡ ok t → Step s t
  starts_server : (t : NetworkState) → start_server s ≡ ok t → Step s t
  starts_client : (t : NetworkState) → start_client s ≡ ok t → Step s t
  stops_server : (s.client ≡ none) ⊎ (s.client ≡ some client_standard) → Step s (stop_server s)
  stops_client : Step s (stop_client s)
  stops_host : Step s (stop_host s)

pub data Reach : NetworkState → Type 0 where
  start : Reach stopped
  next : {s t : NetworkState} → Reach s → Step s t → Reach t

Step-HasPeer : (s t : NetworkState) → Step s t → HasPeer s → HasPeer t
unfolding start_host start_server start_client stop_server stop_client stop_host
Step-HasPeer s t (starts_host _ e) h c = ground arith
Step-HasPeer s t (starts_server _ e) h c = ground arith
Step-HasPeer s t (starts_client _ e) h c = ground arith
Step-HasPeer s _ (stops_server e) h c = ground arith
Step-HasPeer s _ stops_client h c = ground arith
Step-HasPeer s _ stops_host h c = ground arith

-- As long as no program stops the server of a host before its local client, the local client, when there
-- is one, has a host's server to point at.
pub Reach-HasPeer :
    (s : NetworkState) → Reach s → s.client ≡ some client_host → s.server ≡ some server_host
Reach-HasPeer _ start c = ground arith
Reach-HasPeer t (next {s} r step) c = Step-HasPeer s t step (Reach-HasPeer s r) c

-- Stopping the server of a host that was just started leaves its local client without a server.
pub stop_server_first :
    (t : NetworkState)
    → start_host stopped ≡ ok t
    → ((stop_server t).client ≡ some client_host) × ((stop_server t).server ≡ none)
unfolding start_host stop_server
stop_server_first t e = ground arith
