-- ===== src/Server/Standard.antt =====
-- The sends of src/EnkiNet/Networking/ServerStandard.cpp, and its client initialization.
use enki_net.Common.{ℕ, Bool, true, not, List, [], ◌∷◌, ◌==◌, Outcome, ok, ◌>>=◌}
use enki_net.Packet.{Packet, of_header, sent_bytes, type_code, client_initialized}
use enki_net.Packet.Codec.{put_number}
use enki_net.Server.{Effect, to_one, ClientIds, get_next_uid, stamp_time, broadcast}

unfoldable pub send_to_one : ℕ → ℕ → Packet → Outcome (List Effect)
send_to_one now c p = do block ← sent_bytes (stamp_time now p); ok (to_one c block ∷ [])

-- The sends to several clients take the ids of the connected clients.
unfoldable pub send_to_all : ℕ → List ℕ → Packet → Outcome (List Effect)
unfolding broadcast
send_to_all now clients p = broadcast clients (λ c. true) (stamp_time now p)

unfoldable pub send_to_some : ℕ → List ℕ → (ℕ → Bool) → Packet → Outcome (List Effect)
unfolding broadcast
send_to_some now clients test p = broadcast clients test (stamp_time now p)

unfoldable pub send_to_all_except : ℕ → List ℕ → ℕ → Packet → Outcome (List Effect)
unfolding broadcast
send_to_all_except now clients excluded p =
    broadcast clients (λ c. not (c == excluded)) (stamp_time now p)

-- client_init: the new client gets an id and is told it.
unfoldable pub client_init : ℕ → ClientIds → Outcome (ℕ × ClientIds × List Effect)
unfolding get_next_uid send_to_one
client_init now ids = do
  let (id, ids') = get_next_uid ids
  p ← put_number 4 id (of_header (record { type = type_code client_initialized; time_sent = 0 }))
  sent ← send_to_one now id p
  ok (id, ids', sent)
