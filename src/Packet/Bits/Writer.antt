-- ===== src/Packet/Bits/Writer.antt =====
-- writeBits copies the bits of its argument to the buffer, one after the other.
use enki_net.Common.{
  ℕ, zero, suc, ◌+◌, ◌-◌, ◌*◌, ◌/◌, ◌%◌, ◌≤◌, ◌<◌, ◌≡◌, ap, ◌∙◌, List, length, leb, ltb, le→ltb,
  leb→le, leb→lt, resize, length-resize, if◌then◌else◌, ok, arith, Bool-cases, inl, inr, ltb→le,
}
use enki_net.Packet.{Packet}
use enki_net.Packet.Bits.{write_loop, write_bits, align_writer, with_needed}
use enki_net.Packet.Bits.Reference.{copy_in, copy_in-add, length-copy_in, span}
use enki_net.Packet.Bits.Rounds.{write_at, write_loop_done, write_loop_fresh, write_loop_fill}

module _ (word offset : ℕ) where
  write_loop_lem :
      (low n index : ℕ) (p : Packet) (bytes : List ℕ)
      → low < 8
      → n + offset ≤ 32
      → span low n + offset ≤ 32
      → (index * 8 + low + span low n + 7) / 8 ≤ length bytes
      → let end = index * 8 + low + span low n in
        write_loop word offset (suc n) n n (8 - low) (write_at p bytes index low)
        ≡ ok (
            write_at p
              (copy_in (span low n) word offset (index * 8 + low) bytes)
              (end / 8)
              (end % 8))
  write_loop_lem low zero index p bytes h g k s =
      let a : (index * 8 + low + 0) / 8 ≡ index = omega arith in
      let b : (index * 8 + low + 0) % 8 ≡ low = omega arith in
      rw (a, b) (unfold copy_in in write_loop_done word offset 1 0 (8 - low) _ (omega arith))
  write_loop_lem zero (suc n) index p bytes h g k s =
      let a : (index * 8 + 0 + suc n) / 8 ≡ index + suc n / 8 = omega arith in
      let b : (index * 8 + 0 + suc n) % 8 ≡ suc n % 8 = omega arith in
      let c : index * 8 + 0 ≡ index * 8 = omega arith in
      let d : offset + (suc n - suc n) ≡ offset = omega arith in
      rw (a, b, c)
        (rw d at (
          write_loop_fresh word offset (suc (suc n)) (suc n) (suc n) index p bytes (omega arith)
            (omega arith) (omega arith) (omega arith)))
  write_loop_lem (suc low) (suc n) index p bytes h g k s =
      rw
        (write_loop_fill word offset (suc n) (suc n) n index (suc low) p bytes (omega arith) h
          (omega arith) (omega arith))
        (write_loop_fresh word offset (suc n) (suc n) left (suc index) p filled (omega arith)
            (omega arith) (omega arith) (rw length-copy_in (omega arith))
          ∙ joined)
    where
      left : ℕ
      left = suc n - (8 - suc low)

      filled : List ℕ
      filled = copy_in (8 - suc low) word offset (index * 8 + suc low) bytes

      joined :
          ok (
            write_at p
              (copy_in left word (offset + (suc n - left)) (suc index * 8) filled)
              (suc index + left / 8)
              (left % 8))
          ≡ ok (
              write_at p
                (copy_in (span (suc low) (suc n)) word offset (index * 8 + suc low) bytes)
                ((index * 8 + suc low + span (suc low) (suc n)) / 8)
                ((index * 8 + suc low + span (suc low) (suc n)) % 8))
      joined =
          let start = index * 8 + suc low in
          let a : suc index + left / 8 ≡ (start + span (suc low) (suc n)) / 8 = omega arith in
          let b : left % 8 ≡ (start + span (suc low) (suc n)) % 8 = omega arith in
          elim (Bool-cases (leb (8 - suc low) (suc n))) [
            | inl e ↦
                let c : 8 - suc low ≤ suc n = leb→le _ _ e in
                let d : offset + (suc n - left) ≡ offset + (8 - suc low) = omega arith in
                let f : suc index * 8 ≡ start + (8 - suc low) = omega arith in
                let g : 8 - suc low + left ≡ span (suc low) (suc n) = omega arith in
                rw (a, b, d, f, copy_in-add (8 - suc low) left word offset start bytes, g)
            | inr e ↦
                let c : suc n < 8 - suc low = leb→lt _ _ e in
                let d : left ≡ 0 = omega arith in
                let g : 8 - suc low ≡ span (suc low) (suc n) = omega arith in
                rw (a, b)
                  (rw d (
                    unfold copy_in in
                    ap
                      (λ (t : ℕ). ok (
                        write_at p (copy_in t word offset start bytes)
                          ((start + span (suc low) (suc n)) / 8)
                          ((start + span (suc low) (suc n)) % 8)))
                      g))
          ]

-- The write cursor of a packet stands at bit `low` of byte `index`.
pub record WritesAt (p : Packet) (index low : ℕ) : Type 0 where
  pub cursor : align_writer p ≡ write_at p p.bytes index low
  pub within : low < 8

-- The buffer that a call for `n` bits works on.
abbrev pub room_for : ℕ → ℕ → ℕ → List ℕ → List ℕ
room_for index low n bytes =
    let needed = with_needed (suc index) n (8 - low) in
    if ltb (length bytes) needed then resize needed 0 bytes else bytes

pub length-room_for :
    (index low n : ℕ) (bytes : List ℕ)
    → with_needed (suc index) n (8 - low) ≤ length (room_for index low n bytes)
length-room_for index low n bytes =
    elim (Bool-cases (ltb (length bytes) (with_needed (suc index) n (8 - low)))) [
      | inl e ↦ rw (e, length-resize (with_needed (suc index) n (8 - low)) 0 bytes) (omega arith)
      | inr e ↦ rw e (ltb→le _ _ e)
    ]

pub span_fits :
    (low n index size : ℕ)
    → low < 8
    → with_needed (suc index) n (8 - low) ≤ size
    → 0 < n
    → (index * 8 + low + span low n + 7) / 8 ≤ size
span_fits low zero index size h g k = absurd (omega arith)
span_fits zero (suc n) index size h g k = omega arith
span_fits (suc low) (suc n) index size h g k = omega arith

-- From a cursor at bit `low` of byte `index`, writeBits of `n` bits, 1 or more, from bit `offset` up, copies not `n` but
-- `span low n` bits of the word, that is the whole rest of a byte that was begun, to the cursor, as a copy bit by bit
-- does, moves the cursor behind them, and changes nothing else, if n + offset and span low n + offset are at most 32: no
-- fault, and the loop has rounds enough.
pub write_bits-copy_in :
    (word n offset index low : ℕ) (p : Packet)
    → WritesAt p index low
    → 0 < n
    → n + offset ≤ 32
    → span low n + offset ≤ 32
    → let end = index * 8 + low + span low n in
      write_bits word n offset p
      ≡ ok (
          write_at p
            (copy_in (span low n) word offset (index * 8 + low) (room_for index low n p.bytes))
            (end / 8)
            (end % 8))
unfolding write_bits
write_bits-copy_in word n offset index low p at_cursor h g k =
    rw (at_cursor.cursor, le→ltb 32 (n + offset) g)
      (write_loop_lem word offset low n index p (room_for index low n p.bytes) at_cursor.within g k
        (span_fits low n index _ at_cursor.within (length-room_for index low n p.bytes) h))
