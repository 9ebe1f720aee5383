-- ===== src/Server/Host.antt =====
-- The sends of src/EnkiNet/Networking/ServerHost.cpp, which also serve the client of the same
-- program, whose id is 1, and ClientHost::sendPacket, which hands the packet to this server.
use enki_net.Common.{
  ℕ, Bool, true, not, List, [], ◌∷◌, ◌++◌, ◌==◌, if◌then◌else◌, Outcome, ok, ◌>>=◌,
}
use enki_net.Packet.{
  Packet, of_header, sent_bytes, reset_read_position, type_code, client_initialized,
}
use enki_net.Packet.Codec.{put_number}
use enki_net.Server.{Effect, to_one, to_local, ClientIds, get_next_uid, stamp_time, broadcast}

-- The packet that the local client gets, at its stamp's time.
abbrev pub for_local : ℕ → Packet → Packet
for_local now p = record (reset_read_position p) {
  info = record { sender_id = 1; time_received = now };
}

-- Here the sender and the time of receipt are not set for the local client.
unfoldable pub send_to_one : ℕ → ℕ → Packet → Outcome (List Effect)
send_to_one now c p =
    let q = stamp_time now p in
    if not (c == 1)
    then (sent_bytes q >>= λ block. ok (to_one c block ∷ []))
    else ok (to_local (reset_read_position q) ∷ [])

unfoldable pub send_to_all : ℕ → List ℕ → Packet → Outcome (List Effect)
unfolding broadcast
send_to_all now clients p = do
  let q = stamp_time now p
  sent ← broadcast clients (λ c. true) q
  ok (sent ++ to_local (for_local now q) ∷ [])

unfoldable pub send_to_some : ℕ → List ℕ → (ℕ → Bool) → Packet → Outcome (List Effect)
unfolding broadcast
send_to_some now clients test p = do
  let q = stamp_time now p
  sent ← broadcast clients test q
  ok (if test 1 then sent ++ to_local (for_local now q) ∷ [] else sent)

unfoldable pub send_to_all_except : ℕ → List ℕ → ℕ → Packet → Outcome (List Effect)
unfolding broadcast
send_to_all_except now clients excluded p = do
  let q = stamp_time now p
  sent ← broadcast clients (λ c. not (c == excluded)) q
  ok (if not (excluded == 1) then sent ++ to_local (for_local now q) ∷ [] else sent)

unfoldable pub client_init : ℕ → ClientIds → Outcome (ℕ × ClientIds × List Effect)
unfolding get_next_uid send_to_one
client_init now ids = do
  let (id, ids') = get_next_uid ids
  p ← put_number 4 id (of_header (record { type = type_code client_initialized; time_sent = 0 }))
  sent ← send_to_one now id p
  ok (id, ids', sent)

-- ClientHost::sendPacket, whose id is 1: the packet that the server's handlers get.
unfoldable pub client_send : ℕ → Packet → Packet
client_send now p = record (stamp_time now p) {
  info = record { sender_id = 1; time_received = now };
}
