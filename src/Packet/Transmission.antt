-- ===== src/Packet/Transmission.antt =====
-- Values that are written to a new packet, sent and received.
use enki_net.Common.{
  ℕ, suc, ◌^◌, ◌≤◌, ◌<◌, ◌≡◌, ap, List, [], ◌∷◌, ◌++◌, append-nil, Bool, length, Outcome, ok, ◌>>=◌,
  arith,
}
use enki_net.Packet.{Packet, PacketHeader, of_header, of_data, set_header, sent_bytes}
use enki_net.Packet.Codec.{put_string, get_string, put_vector, get_vector, put_array, get_array}
use enki_net.Packet.Laws.{Writes, Reads, Ready}
use enki_net.Packet.Channel.{Arrives, arrives}
use enki_net.Packet.RoundTrip.{put_string-Writes, get_string-Reads, string_bytes}
use enki_net.Packet.RoundTrip.Sequences.{
  Fits, vector_bytes, put_vector-Writes, get_vector-Reads, put_array-Writes, get_array-bytes,
}

-- Write to a new packet, send it under a header, receive it and read: the header and the value.
abbrev pub transmit :
    {A : Type 0}
    → (Packet → Outcome Packet)
    → (Packet → Outcome (A × Packet))
    → PacketHeader
    → PacketHeader
    → Outcome (PacketHeader × A)
transmit put get h h' = do
  p ← put (of_header h)
  d ← sent_bytes (set_header h' p)
  q ← of_data d
  (v, _) ← get q
  ok (q.header, v)

pub transmit-Reads :
    {A : Type 0} (put : Packet → Outcome Packet) (get : Packet → Outcome (A × Packet)) (bs : List ℕ)
    (v : A) (h h' : PacketHeader)
    → Writes (put (of_header h)) (of_header h) bs
    → Reads get v bs
    → h'.time_sent < 2 ^ 32
    → transmit put get h h' ≡ ok (h', v)
transmit-Reads put get bs v h h' (p, sent, a) reads fits =
    let c : Arrives p h' bs = arrives h bs p h' a fits in
    let ready : Ready c.packet (bs ++ []) = rw append-nil c.ready in
    rw (sent, c.sent, c.built, reads c.packet [] ready)
      (ap (λ (t : PacketHeader). ok (t, v)) c.same_header)

pub new_packet_room : (h : PacketHeader) → (of_header h).bytes_written ≤ length (of_header h).bytes
unfolding of_header
new_packet_room h = omega arith

-- A string shorter than 2 ^ 64, written to a new packet, sent under any header and received, is read
-- back as it was, behind the header that was sent.
string_transmission :
    (s : List ℕ) (h h' : PacketHeader)
    → length s < 256 ^ 8
    → h'.time_sent < 2 ^ 32
    → transmit (put_string s) get_string h h' ≡ ok (h', s)
string_transmission s h h' short fits =
    transmit-Reads (put_string s) get_string (string_bytes s) s h h'
      (put_string-Writes s (of_header h) (new_packet_room h)) (get_string-Reads s short) fits

-- A vector of one element or more, of a type of one byte or more that all elements fit, written to a new
-- packet, sent under any header and received, is read back as it was, behind the header that was
-- sent, whatever pointers the two programs have for empty vectors.
pub vector_transmission :
    (null null' : Bool) (w x : ℕ) (xs : List ℕ) (h h' : PacketHeader)
    → Fits (suc w) (x ∷ xs)
    → length (x ∷ xs) < 256 ^ 8
    → h'.time_sent < 2 ^ 32
    → transmit (put_vector null (suc w) (x ∷ xs)) (get_vector null' (suc w)) h h' ≡ ok (h', x ∷ xs)
vector_transmission null null' w x xs h h' each short fits =
    transmit-Reads (put_vector null (suc w) (x ∷ xs)) (get_vector null' (suc w))
      (vector_bytes (suc w) (x ∷ xs)) (x ∷ xs) h h'
      (put_vector-Writes null w x xs (of_header h) (new_packet_room h))
      (get_vector-Reads null' (suc w) x xs each short) fits

-- An array of bytes, written to a new packet, sent under any header and received, is read back as it
-- was into an array of the same size, behind the header that was sent.
byte_array_transmission :
    (old xs : List ℕ) (h h' : PacketHeader)
    → length old ≡ length xs
    → length xs < 256 ^ 8
    → Fits 1 xs
    → h'.time_sent < 2 ^ 32
    → transmit (put_array 1 xs) (get_array 1 old) h h' ≡ ok (h', xs)
byte_array_transmission old xs h h' same short each fits =
    transmit-Reads (put_array 1 xs) (get_array 1 old) (vector_bytes 1 xs) xs h h'
      (put_array-Writes 1 xs (of_header h) (new_packet_room h))
      (get_array-bytes old xs same short each) fits
