-- ===== src/Client/Initialization.antt =====
-- A new client learns the id that the server gave it.
use enki_net.Common.{ℕ, ◌^◌, ◌<◌, ◌≡◌, ap, ◌∙◌, List, [], ◌∷◌, ◌++◌, append-nil, length, ok}
use enki_net.Packet.{
  Packet, PacketHeader, of_header, le_bytes, sent_bytes, type_code, client_initialized,
}
use enki_net.Packet.Codec.{put_number, get_number}
use enki_net.Packet.Laws.{Writes, Appends, Ready, advance}
use enki_net.Packet.Channel.{Arrives, arrives}
use enki_net.Packet.Transmission.{new_packet_room}
use enki_net.Packet.RoundTrip.{put_number-Writes, get_number-Reads}
use enki_net.Server.{ClientIds, to_one, get_next_uid, push_packet, stamp_time}
use enki_net.Server.Standard
use enki_net.Client.{ClientState, learn_id, queued, on_data_received}

abbrev welcome : PacketHeader
welcome = record { type = type_code client_initialized; time_sent = 0 }

send_to_one_lem :
    (now c : ℕ) (p : Packet) (block : List ℕ)
    → sent_bytes (stamp_time now p) ≡ ok block
    → Standard.send_to_one now c p ≡ ok (to_one c block ∷ [])
unfolding Standard.send_to_one
send_to_one_lem now c p block e = rw e

learn_id_lem :
    (p q : Packet) (own old : ℕ)
    → p.header.type ≡ type_code client_initialized
    → get_number 4 p ≡ ok (own, q)
    → learn_id p old ≡ ok own
unfolding learn_id
learn_id_lem p q own old typed got = rw (got, typed)

-- What the server's initialization of a client does, and what its message does to the client.
pub record Initialized (ids : ClientIds) (now later : ℕ) (st : ClientState) : Type 0 where
  pub block : List ℕ
  pub sends :
      let given = get_next_uid ids in
      Standard.client_init now ids ≡ ok (given.0, given.1, to_one given.0 block ∷ [])
  pub packet : Packet
  pub same_header : packet.header ≡ record { type = type_code client_initialized; time_sent = now }
  pub receives :
      on_data_received later block st
      ≡ ok (record st {
        id = (get_next_uid ids).0;
        inbox = push_packet (queued later packet) st.inbox;
      })

-- When a standard server initializes a client with an id of 32 bits, at a time of 32 bits, it sends one
-- block to this id, and a client that receives the block takes the id over and puts a packet of type
-- CLIENT_INITIALIZED, with the time of sending, in its queue.
pub client_init-Initialized :
    (ids : ClientIds) (now later : ℕ) (st : ClientState)
    → (get_next_uid ids).0 < 2 ^ 32
    → now < 2 ^ 32
    → Initialized ids now later st
unfolding Standard.client_init on_data_received
client_init-Initialized ids now later st fits time = record {
  block = c.block;
  sends = rw (put, send_to_one_lem now id p c.block c.sent);
  packet = c.packet;
  same_header = headed;
  receives = rw (c.built, learns);
}
  where
    id : ℕ
    id = (get_next_uid ids).0

    message : Writes (put_number 4 id (of_header welcome)) (of_header welcome) (le_bytes 4 id)
    message = put_number-Writes 4 id (of_header welcome) (new_packet_room welcome)

    p : Packet
    p = message.0

    put : put_number 4 id (of_header welcome) ≡ ok p
    put = message.1

    a : Appends (of_header welcome) (le_bytes 4 id) p
    a = message.2

    typed : p.header.type ≡ type_code client_initialized
    typed = unfold of_header in ap (λ (h : PacketHeader). h.type) a.same_header

    c : Arrives p (record { type = p.header.type; time_sent = now }) (le_bytes 4 id)
    c = arrives welcome (le_bytes 4 id) p _ a time

    headed : c.packet.header ≡ record { type = type_code client_initialized; time_sent = now }
    headed = c.same_header ∙ ap (λ (t : ℕ). record { type = t; time_sent = now }) typed

    ready : Ready c.packet (le_bytes 4 id ++ [])
    ready = rw append-nil c.ready

    learns : learn_id c.packet st.id ≡ ok id
    learns =
        learn_id_lem c.packet (advance c.packet (length (le_bytes 4 id))) id st.id
          (ap (λ (h : PacketHeader). h.type) headed) (get_number-Reads 4 id fits c.packet [] ready)
