-- ===== src/Packet/RoundTrip/Nested.antt =====
-- The codec of a packet inside of a packet, operator<< and operator>> for Packet& in
-- src/EnkiNet/Networking/Packet.cpp.
use enki_net.Common.{ℕ, ◌^◌, ◌≤◌, ◌<◌, List, [], ◌∷◌, Bool, length, arith}
use enki_net.Packet.{Packet}
use enki_net.Packet.Codec.{put_vector, get_vector, put_packet, get_packet}
use enki_net.Packet.Laws.{Writes, Reads}
use enki_net.Packet.Channel.{received, of_data_long}
use enki_net.Packet.RoundTrip.Sequences.{Fits, vector_bytes, put_vector-Writes, get_vector-Reads}

put_bytes-Writes :
    (null : Bool) (bytes : List ℕ) (p : Packet)
    → 8 ≤ length bytes
    → p.bytes_written ≤ length p.bytes
    → Writes (put_vector null 1 bytes p) p (vector_bytes 1 bytes)
put_bytes-Writes null [] p some h = absurd (omega arith)
put_bytes-Writes null (b ∷ bs) p some h = put_vector-Writes null 0 b bs p h

pub put_packet-Writes :
    (null : Bool) (inner p : Packet)
    → 8 ≤ length inner.bytes
    → p.bytes_written ≤ length p.bytes
    → Writes (put_packet null inner p) p (vector_bytes 1 inner.bytes)
unfolding put_packet
put_packet-Writes null inner p some h = put_bytes-Writes null inner.bytes p some h

get_bytes-Reads :
    (null : Bool) (bytes : List ℕ)
    → 8 ≤ length bytes
    → length bytes < 256 ^ 8
    → Fits 1 bytes
    → Reads (get_vector null 1) bytes (vector_bytes 1 bytes)
get_bytes-Reads null [] some short each = absurd (omega arith)
get_bytes-Reads null (b ∷ bs) some short each = get_vector-Reads null 1 b bs each short

-- The buffer of a packet, with the room behind what was written, is what a reader gets.
pub get_packet-Reads :
    (null : Bool) (bytes : List ℕ)
    → 8 ≤ length bytes
    → length bytes < 256 ^ 8
    → Fits 1 bytes
    → Reads (get_packet null) (received bytes) (vector_bytes 1 bytes)
unfolding get_packet
get_packet-Reads null bytes some short each p rest ready =
    rw (get_bytes-Reads null bytes some short each p rest ready, of_data_long bytes some)
