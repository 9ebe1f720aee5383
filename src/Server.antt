-- ===== src/Server.antt =====
-- src/EnkiNet/Networking/Server.hpp, Server.cpp, ServerStandard.cpp and ServerHost.cpp. The library
-- enetpp is used through what the server hands to it: a block of bytes for one client, or for each
-- connected client that passes a test. Times are arguments. A handler of on_packet_received does not
-- push packets: the queue's mutex is held while it runs.
pub mod Ids
pub mod Forgery
pub mod Queue
pub mod Sends
pub mod Standard
pub mod Host
use enki_net.Common.{
  ℕ, ◌+◌, ◌%◌, ◌^◌, Bool, true, false, not, List, [], ◌∷◌, ◌++◌, Option, none, some, length, ltb,
  ◌==◌, if◌then◌else◌, Outcome, ok, ◌>>=◌, Exception,
}
use enki_net.Packet.{
  Packet, PacketInfo, PacketHeader, of_header, of_data, set_header, reset_read_position, sent_bytes,
  type_code, connected, disconnected, client_initialized,
}
use enki_net.Packet.Codec.{put_number}

-- The queue of received packets and the counter of a server, or of a client.
pub record Inbox : Type 0 where
  pub packets : List Packet
  pub packets_received : ℕ

abbrev pub new_inbox : Inbox
new_inbox = record { packets = []; packets_received = 0 }

-- pushPacket
unfoldable pub push_packet : Packet → Inbox → Inbox
push_packet p b = record b { packets = b.packets ++ p ∷ [] }

-- The loop of update: emit the front packet and, once the emit has returned, drop it, until none is left. A handler
-- leaves a state, and may throw: then the front packet stays in the queue, with all that are behind it. The result is
-- what stays, the state and what was thrown.
unfoldable pub drain :
    {S : Type 0}
    → (Packet → S → S × Option Exception)
    → List Packet
    → S
    → List Packet × S × Option Exception
drain handle [] st = ([], st, none)
drain handle (p ∷ ps) st =
    let (st', thrown) = handle p st in
    let later = drain handle ps st' in elim thrown [ none ↦ later | some x ↦ (p ∷ ps, st', some x) ]

-- Server::update and Client::update; `late` is the test that 10 seconds went by.
unfoldable pub update_inbox :
    {S : Type 0}
    → Bool
    → (Packet → S → S × Option Exception)
    → Inbox
    → S
    → Inbox × S × Option Exception
unfolding drain
update_inbox late handle b st =
    let count = (b.packets_received + length b.packets) % 2 ^ 32 in
    let (left, st', thrown) = drain handle b.packets st in
    (record { packets = left; packets_received = if late then 0 else count }, st', thrown)

-- next_uid and free_ids of a server.
pub record ClientIds : Type 0 where
  pub next_uid : ℕ
  pub free_ids : List ℕ

abbrev pub new_ids : ClientIds
new_ids = record { next_uid = 2; free_ids = [] }

-- getNextUID
unfoldable pub get_next_uid : ClientIds → ℕ × ClientIds
get_next_uid ids = elim ids.free_ids [
  | [] ↦ (ids.next_uid, record ids { next_uid = (ids.next_uid + 1) % 2 ^ 32 })
  | id ∷ rest ↦ (id, record ids { free_ids = rest })
]

-- The handler that the constructors connect to on_packet_received, which does not throw.
unfoldable pub release_id : Packet → ClientIds → ClientIds
release_id p ids =
    if p.header.type == type_code disconnected
    then record ids { free_ids = ids.free_ids ++ p.info.sender_id ∷ [] }
    else ids

-- on_client_connected and on_client_disconnected of processPackets, at a time.
unfoldable pub connection_packet : ℕ → ℕ → ℕ → Packet
connection_packet type client now = record (of_header (record { type = type; time_sent = now })) {
  info = record { sender_id = client; time_received = now };
}

-- on_client_data_received: the time of receipt is not before the time of sending.
unfoldable pub data_packet : ℕ → ℕ → List ℕ → Outcome Packet
data_packet client now block = do
  p ← of_data block
  let received = if ltb now p.header.time_sent then p.header.time_sent else now
  ok (record p { info = record { sender_id = client; time_received = received } })

-- What a send does: it hands a block to enetpp for one client, or for each connected client that
-- passes the test, or emits a packet to the local client of a host.
pub data Effect : Type 0 where
  to_one : ℕ → List ℕ → Effect
  to_all_if : (ℕ → Bool) → List ℕ → Effect
  to_local : Packet → Effect

abbrev pub stamp_time : ℕ → Packet → Packet
stamp_time now p = set_header (record { type = p.header.type; time_sent = now }) p

-- `if (!server.get_connected_clients().empty()) send_packet_to_all_if(...)`
unfoldable pub broadcast : List ℕ → (ℕ → Bool) → Packet → Outcome (List Effect)
broadcast [] test p = ok []
broadcast (c ∷ cs) test p = do block ← sent_bytes p; ok (to_all_if test block ∷ [])
