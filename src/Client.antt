-- ===== src/Client.antt =====
-- src/EnkiNet/Networking/Client.hpp, Client.cpp and ClientStandard.cpp: the id of a client, its queue
-- and the handlers of what enetpp reports. Times are arguments.
pub mod Initialization
use enki_net.Common.{ℕ, Bool, true, false, List, ltb, ◌==◌, if◌then◌else◌, Outcome, ok, ◌>>=◌}
use enki_net.Packet.{
  Packet, of_data, sent_bytes, reset_read_position, type_code, connected, disconnected,
  client_initialized,
}
use enki_net.Packet.Codec.{get_number}
use enki_net.Server.{Inbox, new_inbox, push_packet, connection_packet, stamp_time}

pub record ClientState : Type 0 where
  pub id : ℕ
  pub connected_to_server : Bool
  pub inbox : Inbox

-- on_connected and on_disconnected of processPackets: the sender is the server, 1.
unfoldable pub on_connected : ℕ → ClientState → ClientState
unfolding push_packet connection_packet
on_connected now st = record st {
  connected_to_server = true;
  inbox = push_packet (connection_packet (type_code connected) 1 now) st.inbox;
}

unfoldable pub on_disconnected : ℕ → ClientState → ClientState
unfolding push_packet connection_packet
on_disconnected now st = record st {
  connected_to_server = false;
  inbox = push_packet (connection_packet (type_code disconnected) 1 now) st.inbox;
}

-- `p >> id` if the server tells the client its id.
unfoldable pub learn_id : Packet → ℕ → Outcome ℕ
learn_id p id =
    if p.header.type == type_code client_initialized
    then (get_number 4 p >>= λ (own, q). ok own)
    else ok id

-- The packet that goes to the queue.
abbrev pub queued : ℕ → Packet → Packet
queued now p =
    let received = if ltb now p.header.time_sent then p.header.time_sent else now in
    record (reset_read_position p) { info = record { sender_id = 1; time_received = received } }

-- on_data_received
unfoldable pub on_data_received : ℕ → List ℕ → ClientState → Outcome ClientState
on_data_received now block st = do
  p ← of_data block
  own ← learn_id p st.id
  ok (record st { id = own; inbox = push_packet (queued now p) st.inbox })

-- sendPacket: the block that enetpp gets.
unfoldable pub send_packet : ℕ → Packet → Outcome (List ℕ)
send_packet now p = sent_bytes (stamp_time now p)
