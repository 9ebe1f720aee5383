-- ===== src/Packet/Bits/RoundTrip.antt =====
-- What writeBits writes is what readBits reads from the same place.
use enki_net.Common.{
  ℕ, zero, suc, ◌+◌, ◌-◌, ◌*◌, ◌/◌, ◌%◌, ◌^◌, ◌≤◌, ◌<◌, ◌≡◌, refl, sym, ap, ◌∙◌, List, [], ◌∷◌,
  length, resize, replicate, ltb, leb, leb→le, leb→lt, ok, arith, Bool-cases, inl, inr, lt→leb,
}
use enki_net.Common.Bits.{bit, bit_ext, bit_above}
use enki_net.Packet.{Packet}
use enki_net.Packet.Bits.{write_bits, read_bits, with_needed, align_reader}
use enki_net.Packet.Bits.Reference.{copy_in, copy_out, length-copy_in, span}
use enki_net.Packet.Bits.Writer.{WritesAt, write_bits-copy_in, room_for, length-room_for, span_fits}
use enki_net.Packet.Bits.Rounds.{write_at}
use enki_net.Packet.Bits.Reader.{ReadsAt, read_at, read_bits-copy_out}
use enki_net.Packet.Bits.Copies.{
  IsBytes, copy_in_inside, copy_out_inside, copy_out_outside, copy_out-lt,
}

IsBytes-resize : (n : ℕ) (bytes : List ℕ) → IsBytes bytes → IsBytes (resize n 0 bytes)
IsBytes-resize zero bytes h = tt
IsBytes-resize (suc n) [] h = (omega arith, zeros n)
  where
    zeros : (k : ℕ) → IsBytes (replicate k 0)
    zeros zero = tt
    zeros (suc k) = (omega arith, zeros k)
IsBytes-resize (suc n) (b ∷ bs) h = (h.0, IsBytes-resize n bs h.1)

IsBytes-room_for :
    (index low n : ℕ) (bytes : List ℕ) → IsBytes bytes → IsBytes (room_for index low n bytes)
IsBytes-room_for index low n bytes h =
    elim (Bool-cases (ltb (length bytes) (with_needed (suc index) n (8 - low)))) [
      | inl e ↦ rw e (IsBytes-resize (with_needed (suc index) n (8 - low)) bytes h)
      | inr e ↦ rw e h
    ]

-- Bits that are copied in and out again: the number that has the low bits of the word.
copied_back :
    (s word low_bits pos : ℕ) (bytes : List ℕ)
    → IsBytes bytes
    → (pos + s + 7) / 8 ≤ length bytes
    → s ≤ 32
    → low_bits < 2 ^ s
    → low_bits < 2 ^ 32
    → ((j : ℕ) → j < s → bit j word ≡ bit j low_bits)
    → copy_out s 0 pos (copy_in s word 0 pos bytes) 0 ≡ low_bits
copied_back s word low_bits pos bytes v h g w w32 same =
    bit_ext 32 _ low_bits (copy_out-lt s 0 pos _ 0 (omega arith) (omega arith)) w32 digit
  where
    buffer : List ℕ
    buffer = copy_in s word 0 pos bytes

    inside : (j : ℕ) → j < s → bit j (copy_out s 0 pos buffer 0) ≡ bit j low_bits
    inside j l =
        let a : 0 + j ≡ j = omega arith in
        rw a at (
          copy_out_inside s 0 pos j buffer 0 (omega arith) (omega arith) l
          ∙ copy_in_inside s word 0 pos j bytes v h l
          ∙ ap (λ (k : ℕ). bit k word) a
          ∙ same j l)

    outside : (j : ℕ) → s ≤ j → bit j (copy_out s 0 pos buffer 0) ≡ bit j low_bits
    outside j l =
        copy_out_outside s 0 pos j buffer 0 (omega arith) (omega arith) (inr (omega arith))
        ∙ bit_above 0 0 j (omega arith) (omega arith)
        ∙ sym (bit_above s low_bits j w l)

    digit : (j : ℕ) → bit j (copy_out s 0 pos buffer 0) ≡ bit j low_bits
    digit j = elim (Bool-cases (leb s j)) [
      | inl e ↦ outside j (leb→le s j e)
      | inr e ↦ inside j (leb→lt s j e)
    ]

span-le : (low n : ℕ) → low < 8 → n ≤ 32 → span low n ≤ 32
span-le low zero h g = omega arith
span-le zero (suc n) h g = omega arith
span-le (suc low) (suc n) h g = omega arith

cursor_set :
    (p : Packet) (index low : ℕ)
    → low < 8
    → align_reader (read_at p index low) ≡ read_at p index low
unfolding align_reader
cursor_set p index low h = rw (lt→leb 8 low h)

-- What a write of `n` bits of `word` promises to a reader whose cursor is set to where the writer
-- stood: it reads `value`.
pub record ReadsAs (word value n index low : ℕ) (p : Packet) : Type 0 where
  pub after : Packet
  pub writes : write_bits word n 0 p ≡ ok after
  pub reads :
      read_bits n 0 (read_at after index low)
      ≡ ok
          (value, record after { bytes_read = after.bytes_written; bits_read = after.bits_written })

abbrev pub ReadsBack : ℕ → ℕ → ℕ → ℕ → Packet → Type 0
ReadsBack word n index low p = ReadsAs word word n index low p

pub write_bits-ReadsAs :
    (word value n index low : ℕ) (p : Packet)
    → WritesAt p index low
    → IsBytes p.bytes
    → 0 < n
    → n ≤ 32
    → value < 2 ^ span low n
    → value < 2 ^ 32
    → ((j : ℕ) → j < span low n → bit j word ≡ bit j value)
    → ReadsAs word value n index low p
write_bits-ReadsAs word value n index low p at_cursor v h g w w32 same = record {
  after = after;
  writes = write_bits-copy_in word n 0 index low p at_cursor h (omega arith) small;
  reads =
      read_bits-copy_out n 0 index low (read_at after index low) at_read (omega arith) small
        (rw length-copy_in fits)
        (rw length-copy_in (omega (arith, length-room_for index low n p.bytes)))
      ∙ ap (λ (v : ℕ). ok (v, read_at after ((start + span low n) / 8) ((start + span low n) % 8)))
          (copied_back (span low n) word value start room (IsBytes-room_for index low n p.bytes v)
            fits (span-le low n at_cursor.within g) w w32 same);
}
  where
    start : ℕ
    start = index * 8 + low

    room : List ℕ
    room = room_for index low n p.bytes

    after : Packet
    after =
        write_at p (copy_in (span low n) word 0 start room) ((start + span low n) / 8)
          ((start + span low n) % 8)

    small : span low n + 0 ≤ 32
    small = omega (arith, span-le low n at_cursor.within g)

    fits : (start + span low n + 7) / 8 ≤ length room
    fits =
        span_fits low n index (length room) at_cursor.within (length-room_for index low n p.bytes) h

    at_read : ReadsAt (read_at after index low) index low
    at_read = record {
      cursor = cursor_set after index low at_cursor.within;
      within = at_cursor.within;
    }

-- From a cursor at bit `low` of byte `index`, a write of `n` bits, 1 to 32, of a word that fits the
-- bits which writeBits moves returns, and the same call of readBits from there gives the word back,
-- the read cursor ending where the write cursor ended. The bits moved are the `n` asked for, or the
-- rest of a byte that is written in part, if that is more. The buffer holds bytes, and the word has 32
-- bits.
pub write_bits-ReadsBack :
    (word n index low : ℕ) (p : Packet)
    → WritesAt p index low
    → IsBytes p.bytes
    → 0 < n
    → n ≤ 32
    → word < 2 ^ span low n
    → word < 2 ^ 32
    → ReadsBack word n index low p
write_bits-ReadsBack word n index low p at_cursor v h g w w32 =
    write_bits-ReadsAs word word n index low p at_cursor v h g w w32 (λ j l. refl)
