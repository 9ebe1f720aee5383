-- ===== src/Tests/Packets.antt =====
-- Packets, strings, vectors and bits at concrete inputs.
use enki_net.Common.{
  ℕ, ◌+◌, ◌*◌, ◌≡◌, refl, List, [], ◌∷◌, ◌++◌, length, Outcome, ok, fault, ◌>>=◌, arith,
}
use enki_net.Packet.{
  Packet, PacketHeader, default_header, default_info, of_header, header_bytes, empty, sent_bytes,
}
use enki_net.Packet.Codec.{get_array}
use enki_net.Packet.Laws.{Ready}
use enki_net.Packet.RoundTrip.Sequences.{vector_bytes, get_array-misaligned}
use enki_net.Packet.Bits.{
  write_bits, read_bits, align_writer, align_reader, write_loop, write_chunk,
}
use enki_net.Packet.Bits.Reference.{copy_in, copy_out}
use enki_net.Packet.Bits.Writer.{WritesAt, room_for, write_bits-copy_in}
use enki_net.Packet.Bits.Rounds.{write_at}
use enki_net.Packet.Bits.Reader.{ReadsAt, read_at, read_bits-copy_out}
use enki_net.Packet.Bits.Copies.{IsBytes}
use enki_net.Packet.Bits.RoundTrip.{ReadsBack, write_bits-ReadsBack}
use enki_net.Packet.Bits.Edges.{read_bits_past_end, sent_bytes-write_bits}

abbrev sending : PacketHeader
sending = record { type = 12; time_sent = 70000 }

abbrev greeting : List ℕ
greeting = 104 ∷ 105 ∷ []

abbrev wide : Packet
wide = record {
  info = default_info;
  header = default_header;
  bytes = 0 ∷ 0 ∷ 0 ∷ 0 ∷ 0 ∷ 0 ∷ 0 ∷ 0 ∷ vector_bytes 4 (1 ∷ 2 ∷ []) ++ 9 ∷ [];
  bytes_written = 25;
  bytes_read = 8;
  bits_written = 8;
  bits_read = 8;
}

wide-Ready : Ready wide (vector_bytes 4 (1 ∷ 2 ∷ []) ++ 9 ∷ [])
wide-Ready = record { inside = omega arith; aligned = refl; unread = refl }

get_array-misaligned_example :
    (v : List ℕ) × (q : Packet) × (get_array 4 (0 ∷ 0 ∷ []) wide ≡ ok (v, q))
    × (length q.bytes ≡ q.bytes_read + 3 * 2 + 1)
get_array-misaligned_example =
    get_array-misaligned 3 (0 ∷ 0 ∷ []) (1 ∷ 2 ∷ []) (9 ∷ []) wide refl (omega arith) wide-Ready

empty-WritesAt : WritesAt empty 8 0
unfolding align_writer empty of_header
empty-WritesAt = record { cursor = refl; within = omega arith }

empty-ReadsAt : ReadsAt empty 8 0
unfolding align_reader empty of_header
empty-ReadsAt = record { cursor = refl; within = omega arith }

empty-IsBytes : IsBytes empty.bytes
unfolding empty of_header header_bytes
empty-IsBytes = (
  omega arith,
  (
    omega arith,
    (omega arith, (omega arith, (omega arith, (omega arith, (omega arith, (omega arith, tt)))))),
  ),
)

write_bits-ReadsBack_example : ReadsBack 21 5 8 0 empty
unfolding empty of_header header_bytes
write_bits-ReadsBack_example =
    write_bits-ReadsBack 21 5 8 0 empty empty-WritesAt empty-IsBytes (omega arith) (omega arith)
      (omega arith) (omega arith)

write_bits-copy_in_example :
    write_bits 1365 11 0 empty
    ≡ ok (write_at empty (copy_in 11 1365 0 64 (room_for 8 0 11 empty.bytes)) 9 3)
unfolding empty of_header header_bytes
write_bits-copy_in_example =
    write_bits-copy_in 1365 11 0 8 0 empty empty-WritesAt (omega arith) (omega arith) (omega arith)

wide-ReadsAt : ReadsAt wide 8 0
unfolding align_reader
wide-ReadsAt = record { cursor = refl; within = omega arith }

read_bits-copy_out_example :
    read_bits 11 4 wide ≡ ok (copy_out 11 4 64 wide.bytes 0, read_at wide 9 3)
read_bits-copy_out_example =
    read_bits-copy_out 11 4 8 0 wide wide-ReadsAt (omega arith) (omega arith) (omega arith)
      (omega arith)

read_bits_past_end_example : read_bits 8 0 empty ≡ fault
unfolding empty of_header
read_bits_past_end_example =
    read_bits_past_end 8 0 empty empty-ReadsAt (omega arith) (omega arith) (omega arith)

sent_bytes-write_bits_example :
    (q : Packet) × (write_bits 255 8 0 empty ≡ ok q) × (sent_bytes q ≡ fault)
unfolding empty of_header
sent_bytes-write_bits_example =
    sent_bytes-write_bits 255 8 empty empty-WritesAt (omega arith) refl (omega arith)

-- Five writes of 4, 4, 6, 4 and 6 one bits, the second and the fourth of which finish a byte, as in
-- PacketTest.
three_bytes : Outcome Packet
three_bytes = do
  a ← write_bits 15 4 0 empty
  b ← write_bits 15 4 0 a
  c ← write_bits 15 6 0 b
  d ← write_bits 15 4 0 c
  write_bits 15 6 0 d

three_bytes_test :
    (three_bytes >>= λ p. ok p.bytes) ≡ ok (0 ∷ 0 ∷ 0 ∷ 0 ∷ 0 ∷ 0 ∷ 0 ∷ 0 ∷ 255 ∷ 207 ∷ 63 ∷ [])
unfolding three_bytes write_bits write_loop write_chunk align_writer empty of_header header_bytes
three_bytes_test = refl
