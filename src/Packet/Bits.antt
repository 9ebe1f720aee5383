-- ===== src/Packet/Bits.antt =====
-- Packet::writeBits and Packet::readBits of src/EnkiNet/Networking/Packet.cpp. An int is its 32-bit
-- pattern. The numbers of bits and the offset are not negative. A shift by 32 or more and an access
-- behind the end of the buffer are faults. `bits_left`, which can fall below 0, stops at 0 here: the
-- loop ends either way.
pub mod Reference
pub mod Rounds
pub mod Writer
pub mod Reader
pub mod RoundTrip
pub mod Copies
pub mod Edges
use Prim.Native.Nat.{bit_and, bit_or}
use enki_net.Common.{
  ℕ, zero, suc, ◌+◌, ◌-◌, ◌*◌, ◌/◌, ◌%◌, ◌^◌, ◌≤◌, List, Bool, true, false, not, ◌||◌, length,
  get_or, set, resize, ltb, leb, ◌==◌, if◌then◌else◌, Outcome, ok, throws, fault, ◌>>=◌,
  write_overflow, read_overflow, read_past_buffer,
}
use enki_net.Packet.{Packet}

-- The test `word & (1 << k)`.
abbrev pub test_bit : ℕ → ℕ → Bool
test_bit word k = not (bit_and word (2 ^ k) == 0)

-- `word | (1 << k)` or `word & ~(1 << k)`, in a word of `w` bits.
abbrev pub put_bit : ℕ → ℕ → ℕ → Bool → ℕ
put_bit w word k on = if on then bit_or word (2 ^ k) else bit_and word (2 ^ w - 1 - 2 ^ k)

-- "ensure our bit/byte count is up to date"
unfoldable pub align_writer : Packet → Packet
align_writer p =
    if leb 8 p.bits_written
    then record p {
      bytes_written = p.bytes_written + p.bits_written / 8;
      bits_written = p.bits_written % 8;
    }
    else p

unfoldable pub align_reader : Packet → Packet
align_reader p =
    if leb 8 p.bits_read
    then record p { bytes_read = p.bytes_read + p.bits_read / 8; bits_read = p.bits_read % 8 }
    else p

module _ (word offset : ℕ) where
  -- The lambda write_bits, with `rounds` of its loop left from `i` on; `low` is bits_written and
  -- `index` the byte bytes_written - 1.
  unfoldable pub write_chunk : ℕ → ℕ → ℕ → ℕ → ℕ → List ℕ → Outcome (List ℕ)
  write_chunk zero i extra low index bytes = ok bytes
  write_chunk (suc rounds) i extra low index bytes =
      let rest = write_chunk rounds (i + 1) extra low index (
        set bytes index
          (put_bit 8 (get_or bytes index 0) (i + low) (test_bit word (i + offset + extra)))) in
      if leb 32 (i + offset + extra) || leb (length bytes) index then fault else rest

  -- The while loop; each round takes at least one bit, so `total` rounds and one test are enough.
  unfoldable pub write_loop : ℕ → ℕ → ℕ → ℕ → Packet → Outcome Packet
  unfolding write_chunk
  write_loop zero total left available p = fault
  write_loop (suc fuel) total left available p =
      let fill =
        (write_chunk available 0 0 p.bits_written (p.bytes_written - 1) p.bytes >>= λ bytes.
        write_loop fuel total (left - available) 8
          (record p { bytes = bytes; bytes_written = p.bytes_written + 1; bits_written = 0 })) in
      let whole =
        (write_chunk 8 0 (total - left) p.bits_written (p.bytes_written - 1) p.bytes >>= λ bytes.
        write_loop fuel total (left - 8) available
          (record p { bytes = bytes; bytes_written = p.bytes_written + 1; bits_written = 0 })) in
      let last =
        (write_chunk (left % 8) 0 (total - left) p.bits_written (p.bytes_written - 1) p.bytes
          >>= λ bytes.
              write_loop fuel total 0 available
                (record p { bytes = bytes; bits_written = p.bits_written + left % 8 })) in
      if left == 0
      then ok p
      else if ltb available 8
      then fill
      else if leb 1 (left / 8)
      then whole
      else last

module _ (offset : ℕ) where
  -- The lambda read_bits; `acc` is the int that is put together.
  unfoldable pub read_chunk : ℕ → ℕ → ℕ → ℕ → ℕ → List ℕ → ℕ → Outcome ℕ
  read_chunk zero i extra low index bytes acc = ok acc
  read_chunk (suc rounds) i extra low index bytes acc =
      let rest =
        read_chunk rounds (i + 1) extra low index bytes
          (put_bit 32 acc (i + offset + extra) (test_bit (get_or bytes index 0) (low + i))) in
      if leb 32 (i + offset + extra) || leb (length bytes) index then fault else rest

  unfoldable pub read_loop : ℕ → ℕ → ℕ → ℕ → ℕ → Packet → Outcome (ℕ × Packet)
  unfolding read_chunk
  read_loop zero total left available acc p = fault
  read_loop (suc fuel) total left available acc p =
      let fill =
        (read_chunk available 0 0 p.bits_read (p.bytes_read - 1) p.bytes acc >>= λ acc'.
        read_loop fuel total (left - available) 8 acc'
          (record p { bytes_read = p.bytes_read + 1; bits_read = 0 })) in
      let whole =
        (read_chunk 8 0 (total - left) p.bits_read (p.bytes_read - 1) p.bytes acc >>= λ acc'.
        read_loop fuel total (left - 8) available acc'
          (record p { bytes_read = p.bytes_read + 1; bits_read = 0 })) in
      let last =
        (read_chunk (left % 8) 0 (total - left) p.bits_read (p.bytes_read - 1) p.bytes acc
          >>= λ acc'.
              read_loop fuel total 0 available acc'
                (record p { bits_read = p.bits_read + left % 8 })) in
      if left == 0
      then ok (acc, p)
      else if ltb available 8
      then fill
      else if leb 1 (left / 8)
      then whole
      else last

-- bytes_written + bytes_needed, where bytes_needed is the ceiling of (bits - available) / 8, which is
-- -1 for no bits and a fresh byte.
abbrev pub with_needed : ℕ → ℕ → ℕ → ℕ
with_needed cursor bits available = cursor + (bits + 15 - available) / 8 - 1

unfoldable pub write_bits : ℕ → ℕ → ℕ → Packet → Outcome Packet
unfolding write_loop align_writer
write_bits word bits offset p0 =
    let p = align_writer p0 in
    let available = 8 - p.bits_written in
    let needed = with_needed p.bytes_written bits available in
    if ltb 32 (bits + offset)
    then throws write_overflow
    else write_loop word offset (suc bits) bits bits available (record p {
      bytes = if ltb (length p.bytes) needed then resize needed 0 p.bytes else p.bytes;
    })

unfoldable pub read_bits : ℕ → ℕ → Packet → Outcome (ℕ × Packet)
unfolding read_loop align_reader
read_bits bits offset p0 =
    let p = align_reader p0 in
    let available = 8 - p.bits_read in
    let needed = with_needed p.bytes_read bits available in
    if ltb 32 (bits + offset)
    then throws read_overflow
    else if ltb (length p.bytes) (needed - 1)
    then throws read_past_buffer
    else read_loop offset (suc bits) bits bits available 0 p
