-- ===== src/Packet/Bits/Edges.antt =====
-- writeBits and readBits at the ends of their input and of the buffer.
use enki_net.Common.{
  ℕ, zero, suc, ◌+◌, ◌-◌, ◌*◌, ◌/◌, ◌%◌, ◌≤◌, ◌<◌, ◌≡◌, refl, List, length, ltb, ltb→le, leb,
  le→ltb, lt→ltb, lt→leb, le→leb, leb→le, leb→lt, suc-==-zero, length-resize, ok, throws, fault,
  write_overflow, read_overflow, arith, Bool-cases, inl, inr,
}
use enki_net.Packet.{Packet, sent_bytes}
use enki_net.Packet.Bits.{write_bits, read_bits, with_needed, read_chunk}
use enki_net.Packet.Bits.Reference.{copy_in, length-copy_in}
use enki_net.Packet.Bits.Writer.{WritesAt, write_bits-copy_in, room_for}
use enki_net.Packet.Bits.Rounds.{write_at}
use enki_net.Packet.Bits.Reader.{ReadsAt}

-- A call that would need more than 32 bits of the int throws, whatever the packet.
pub bits_overflow :
    (word n offset : ℕ) (p : Packet)
    → 32 < n + offset
    → (write_bits word n offset p ≡ throws write_overflow)
      × (read_bits n offset p ≡ throws read_overflow)
unfolding write_bits read_bits
bits_overflow word n offset p h =
    (rw (lt→ltb 32 (n + offset) h) refl, rw (lt→ltb 32 (n + offset) h) refl)

read_chunk_past :
    (offset rounds i extra low index acc : ℕ) (bytes : List ℕ)
    → i + offset + extra < 32
    → length bytes ≤ index
    → read_chunk offset (suc rounds) i extra low index bytes acc ≡ fault
unfolding read_chunk
read_chunk_past offset rounds i extra low index acc bytes h g =
    rw (lt→leb 32 (i + offset + extra) h, le→leb (length bytes) index g) refl

-- readBits of 1 to 8 bits at the very end of the buffer, within the 32 bits of its result: the bounds
-- check lets it through, and the read goes one byte behind the end instead of throwing.
pub read_bits_past_end :
    (n offset : ℕ) (p : Packet)
    → ReadsAt p (length p.bytes) 0
    → 0 < n
    → n ≤ 8
    → n + offset ≤ 32
    → read_bits n offset p ≡ fault
unfolding read_bits
read_bits_past_end zero offset p r h g k = absurd (omega arith)
read_bits_past_end (suc n) offset p r h g k =
    let a : suc (length p.bytes) - 1 ≡ length p.bytes = omega arith in
    rw
      (
        r.cursor,
        le→ltb 32 (suc n + offset) k,
        le→ltb (length p.bytes) (with_needed (suc (length p.bytes)) (suc n) 8 - 1) (omega arith),
        suc-==-zero n,
      )
      (elim (Bool-cases (leb 8 (suc n))) [
        | inl e ↦
            rw
              (
                le→leb 1 (suc n / 8) (omega (arith, leb→le 8 (suc n) e)),
                a,
                read_chunk_past offset 7 0 (suc n - suc n) 0 (length p.bytes) 0 p.bytes
                    (omega arith) (omega arith),
              )
              refl
        | inr e ↦
            let b : suc n % 8 ≡ suc n = omega (arith, leb→lt 8 (suc n) e) in
            rw
              (
                lt→leb 1 (suc n / 8) (omega (arith, leb→lt 8 (suc n) e)),
                a,
                b,
                read_chunk_past offset n 0 (suc n - suc n) 0 (length p.bytes) 0 p.bytes
                    (omega arith) (omega arith),
              )
              refl
      ])

-- After 1 to 4 whole bytes were written with writeBits at the end of the buffer, a send hands over one byte
-- more than the buffer has.
pub sent_bytes-write_bits :
    (word n : ℕ) (p : Packet)
    → WritesAt p (length p.bytes) 0
    → 0 < n
    → n % 8 ≡ 0
    → n ≤ 32
    → (q : Packet) × (write_bits word n 0 p ≡ ok q) × (sent_bytes q ≡ fault)
sent_bytes-write_bits word zero p w h m g = absurd (omega arith)
sent_bytes-write_bits word (suc n) p w h m g = (
  write_at p block (end / 8) (end % 8),
  write_bits-copy_in word (suc n) 0 (length p.bytes) 0 p w h (omega arith) (omega arith),
  (unfold sent_bytes in rw (lt→ltb (length block) (suc (end / 8)) short) refl),
)
  where
    end : ℕ
    end = length p.bytes * 8 + 0 + suc n

    needed : ℕ
    needed = with_needed (suc (length p.bytes)) (suc n) 8

    block : List ℕ
    block =
        copy_in (suc n) word 0 (length p.bytes * 8 + 0)
          (room_for (length p.bytes) 0 (suc n) p.bytes)

    grown : length (room_for (length p.bytes) 0 (suc n) p.bytes) ≡ needed
    grown = elim (Bool-cases (ltb (length p.bytes) needed)) [
      | inl e ↦ rw e (length-resize needed 0 p.bytes)
      | inr e ↦ rw e (omega (arith, ltb→le (length p.bytes) needed e))
    ]

    short : length block < suc (end / 8)
    short = omega (
      arith,
      grown,
      length-copy_in (suc n) word 0 (length p.bytes * 8 + 0)
          (room_for (length p.bytes) 0 (suc n) p.bytes),
    )
