-- ===== src/Packet/Bits/Reader.antt =====
-- readBits puts together the bits of the buffer, one after the other.
use enki_net.Common.{
  ℕ, zero, suc, ◌+◌, ◌-◌, ◌*◌, ◌/◌, ◌%◌, ◌≤◌, ◌<◌, ◌≡◌, refl, ap, ◌∙◌, length, leb, lt→leb, le→leb,
  le→ltb, lt→ltb, leb→le, leb→lt, suc-==-zero, Outcome, ok, arith, Bool-cases, inl, inr,
}
use enki_net.Packet.{Packet}
use enki_net.Packet.Bits.{read_loop, read_bits, align_reader, with_needed}
use enki_net.Packet.Bits.Reference.{copy_out, copy_out-add, read_chunk-copy_out, span}

-- The packet with its read cursor at bit `low` of byte `index`.
abbrev pub read_at : Packet → ℕ → ℕ → Packet
read_at p index low = record p { bytes_read = suc index; bits_read = low }

abbrev result : ℕ → Packet → Outcome (ℕ × Packet)
result acc p = ok (acc, p)

module _ (offset : ℕ) where
  read_loop_done :
      (fuel total available acc : ℕ) (p : Packet)
      → 0 < fuel
      → read_loop offset fuel total 0 available acc p ≡ ok (acc, p)
  unfolding read_loop
  read_loop_done zero total available acc p h = absurd (omega arith)
  read_loop_done (suc fuel) total available acc p h = refl

  read_loop_whole :
      (fuel total l index acc : ℕ) (p : Packet)
      → 8 ≤ suc l
      → suc l ≤ total
      → total + offset ≤ 32
      → index < length p.bytes
      → read_loop offset (suc fuel) total (suc l) 8 acc (read_at p index 0)
        ≡ read_loop offset fuel total
            (suc l - 8)
            8
            (copy_out 8 (offset + (total - suc l)) (index * 8) p.bytes acc)
            (read_at p (suc index) 0)
  unfolding read_loop
  read_loop_whole fuel total l index acc p h g k s =
      let a : suc index - 1 ≡ index = omega arith in
      let b : suc index + 1 ≡ suc (suc index) = omega arith in
      let c : 0 + offset + (total - suc l) ≡ offset + (total - suc l) = omega arith in
      let d : index * 8 + (0 + 0) ≡ index * 8 = omega arith in
      rw
        (
          suc-==-zero l,
          le→leb 1 (suc l / 8) (omega arith),
          a,
          read_chunk-copy_out offset 8 0 (total - suc l) 0 index p.bytes acc (omega arith)
              (omega arith) s,
          b,
          c,
          d,
        )
        refl

  read_loop_last :
      (fuel total l index acc : ℕ) (p : Packet)
      → suc l < 8
      → suc l ≤ total
      → total + offset ≤ 32
      → index < length p.bytes
      → 0 < fuel
      → read_loop offset (suc fuel) total (suc l) 8 acc (read_at p index 0)
        ≡ ok (
          copy_out (suc l) (offset + (total - suc l)) (index * 8) p.bytes acc,
          read_at p index (suc l),
        )
  unfolding read_loop
  read_loop_last fuel total l index acc p h g k s f =
      let a : suc index - 1 ≡ index = omega arith in
      let b : suc l % 8 ≡ suc l = omega arith in
      let c : 0 + offset + (total - suc l) ≡ offset + (total - suc l) = omega arith in
      let d : index * 8 + (0 + 0) ≡ index * 8 = omega arith in
      let e : 0 + suc l ≡ suc l = omega arith in
      rw
        (
          suc-==-zero l,
          lt→leb 1 (suc l / 8) (omega arith),
          a,
          b,
          read_chunk-copy_out offset (suc l) 0 (total - suc l) 0 index p.bytes acc (omega arith)
              (omega arith) s,
          c,
          d,
          e,
        )
        (read_loop_done fuel total 8 _ _ f)

  -- From a fresh byte on, with enough rounds.
  read_loop_fresh :
      (fuel total left index acc : ℕ) (p : Packet)
      → left < fuel
      → left ≤ total
      → total + offset ≤ 32
      → index + (left + 7) / 8 ≤ length p.bytes
      → read_loop offset fuel total left 8 acc (read_at p index 0)
        ≡ ok (
          copy_out left (offset + (total - left)) (index * 8) p.bytes acc,
          read_at p (index + left / 8) (left % 8),
        )
  unfolding copy_out
  read_loop_fresh zero total left index acc p f g k s = absurd (omega arith)
  read_loop_fresh (suc fuel) total zero index acc p f g k s =
      let a : index + 0 ≡ index = omega arith in
      rw a (read_loop_done (suc fuel) total 8 acc (read_at p index 0) (omega arith))
  read_loop_fresh (suc fuel) total (suc l) index acc p f g k s = elim (Bool-cases (leb 8 (suc l))) [
    | inl h ↦
        let long : 8 ≤ suc l = leb→le 8 (suc l) h in
        rw (read_loop_whole fuel total l index acc p long g k (omega arith)) (
          read_loop_fresh fuel total (suc l - 8) (suc index)
            (copy_out 8 (offset + (total - suc l)) (index * 8) p.bytes acc) p (omega arith)
            (omega arith) k (omega arith)
          ∙ joined long)
    | inr h ↦
        let short : suc l < 8 = leb→lt 8 (suc l) h in
        let a : index + suc l / 8 ≡ index = omega arith in
        let b : suc l % 8 ≡ suc l = omega arith in
        rw (a, b) (read_loop_last fuel total l index acc p short g k (omega arith) (omega arith))
  ]
    where
      joined :
          8 ≤ suc l
          → result
              (copy_out
                (suc l - 8)
                (offset + (total - (suc l - 8)))
                (suc index * 8)
                p.bytes
                (copy_out 8 (offset + (total - suc l)) (index * 8) p.bytes acc))
              (read_at p (suc index + (suc l - 8) / 8) ((suc l - 8) % 8))
            ≡ result
                (copy_out (suc l) (offset + (total - suc l)) (index * 8) p.bytes acc)
                (read_at p (index + suc l / 8) (suc l % 8))
      joined long =
          let a : offset + (total - (suc l - 8)) ≡ offset + (total - suc l) + 8 = omega arith in
          let b : suc index * 8 ≡ index * 8 + 8 = omega arith in
          let c : suc index + (suc l - 8) / 8 ≡ index + suc l / 8 = omega arith in
          let d : (suc l - 8) % 8 ≡ suc l % 8 = omega arith in
          let e : 8 + (suc l - 8) ≡ suc l = omega arith in
          rw (
            a,
            b,
            c,
            d,
            copy_out-add 8 (suc l - 8) (offset + (total - suc l)) (index * 8) p.bytes acc,
            e,
          )

  -- The first round, in a byte that is read in part.
  read_loop_fill :
      (fuel total l index low acc : ℕ) (p : Packet)
      → 0 < low
      → low < 8
      → 8 - low + offset ≤ 32
      → index < length p.bytes
      → read_loop offset (suc fuel) total (suc l) (8 - low) acc (read_at p index low)
        ≡ read_loop offset fuel total
            (suc l - (8 - low))
            8
            (copy_out (8 - low) offset (index * 8 + low) p.bytes acc)
            (read_at p (suc index) 0)
  unfolding read_loop
  read_loop_fill fuel total l index low acc p h g k s =
      let a : suc index - 1 ≡ index = omega arith in
      let b : suc index + 1 ≡ suc (suc index) = omega arith in
      let c : 0 + offset + 0 ≡ offset = omega arith in
      let d : low + 0 ≡ low = omega arith in
      rw
        (
          suc-==-zero l,
          lt→ltb (8 - low) 8 (omega arith),
          a,
          read_chunk-copy_out offset (8 - low) 0 0 low index p.bytes acc (omega arith) (omega arith)
              s,
          b,
          c,
          d,
        )
        refl

module _ (offset : ℕ) where
  read_loop_lem :
      (low n index acc : ℕ) (p : Packet)
      → low < 8
      → n + offset ≤ 32
      → span low n + offset ≤ 32
      → (index * 8 + low + span low n + 7) / 8 ≤ length p.bytes
      → let end = index * 8 + low + span low n in
        read_loop offset (suc n) n n (8 - low) acc (read_at p index low)
        ≡ ok (
          copy_out (span low n) offset (index * 8 + low) p.bytes acc,
          read_at p (end / 8) (end % 8),
        )
  read_loop_lem low zero index acc p h g k s =
      let a : (index * 8 + low + 0) / 8 ≡ index = omega arith in
      let b : (index * 8 + low + 0) % 8 ≡ low = omega arith in
      rw (a, b) (unfold copy_out in read_loop_done offset 1 0 (8 - low) acc _ (omega arith))
  read_loop_lem zero (suc n) index acc p h g k s =
      let a : (index * 8 + 0 + suc n) / 8 ≡ index + suc n / 8 = omega arith in
      let b : (index * 8 + 0 + suc n) % 8 ≡ suc n % 8 = omega arith in
      let c : index * 8 + 0 ≡ index * 8 = omega arith in
      let d : offset + (suc n - suc n) ≡ offset = omega arith in
      rw (a, b, c)
        (rw d at (
          read_loop_fresh offset (suc (suc n)) (suc n) (suc n) index acc p (omega arith)
            (omega arith) (omega arith) (omega arith)))
  read_loop_lem (suc low) (suc n) index acc p h g k s =
      rw
        (read_loop_fill offset (suc n) (suc n) n index (suc low) acc p (omega arith) h (omega arith)
          (omega arith))
        (read_loop_fresh offset (suc n) (suc n) left (suc index) filled p (omega arith)
            (omega arith) (omega arith) (omega arith)
          ∙ joined)
    where
      left : ℕ
      left = suc n - (8 - suc low)

      filled : ℕ
      filled = copy_out (8 - suc low) offset (index * 8 + suc low) p.bytes acc

      joined :
          result
            (copy_out left (offset + (suc n - left)) (suc index * 8) p.bytes filled)
            (read_at p (suc index + left / 8) (left % 8))
          ≡ result (copy_out (span (suc low) (suc n)) offset (index * 8 + suc low) p.bytes acc) (
              read_at p
                ((index * 8 + suc low + span (suc low) (suc n)) / 8)
                ((index * 8 + suc low + span (suc low) (suc n)) % 8))
      joined =
          let start = index * 8 + suc low in
          let a : suc index + left / 8 ≡ (start + span (suc low) (suc n)) / 8 = omega arith in
          let b : left % 8 ≡ (start + span (suc low) (suc n)) % 8 = omega arith in
          elim (Bool-cases (leb (8 - suc low) (suc n))) [
            | inl e ↦
                let c : 8 - suc low ≤ suc n = leb→le _ _ e in
                let d : offset + (suc n - left) ≡ offset + (8 - suc low) = omega arith in
                let f : suc index * 8 ≡ start + (8 - suc low) = omega arith in
                let g : 8 - suc low + left ≡ span (suc low) (suc n) = omega arith in
                rw (a, b, d, f, copy_out-add (8 - suc low) left offset start p.bytes acc, g)
            | inr e ↦
                let c : suc n < 8 - suc low = leb→lt _ _ e in
                let d : left ≡ 0 = omega arith in
                let g : 8 - suc low ≡ span (suc low) (suc n) = omega arith in
                rw (a, b)
                  (rw d (
                    unfold copy_out in
                    ap
                      (λ (t : ℕ). result (copy_out t offset start p.bytes acc) (
                        read_at p ((start + span (suc low) (suc n)) / 8)
                          ((start + span (suc low) (suc n)) % 8)))
                      g))
          ]

-- The read cursor of a packet stands at bit `low` of byte `index`.
pub record ReadsAt (p : Packet) (index low : ℕ) : Type 0 where
  pub cursor : align_reader p ≡ read_at p index low
  pub within : low < 8

-- From a cursor at bit `low` of byte `index`, readBits of `n` bits takes not `n` but `span low n` bits, that is the whole
-- rest of a byte that was begun, out of the buffer into the bits of its result from `offset` up, as a copy bit by bit
-- does, and moves the cursor behind them, if n + offset and span low n + offset are at most 32, the buffer holds these
-- bits, and it has the bytes that the code computes to be needed. The loop has rounds enough.
pub read_bits-copy_out :
    (n offset index low : ℕ) (p : Packet)
    → ReadsAt p index low
    → n + offset ≤ 32
    → span low n + offset ≤ 32
    → (index * 8 + low + span low n + 7) / 8 ≤ length p.bytes
    → with_needed (suc index) n (8 - low) ≤ suc (length p.bytes)
    → let end = index * 8 + low + span low n in
      read_bits n offset p
      ≡ ok (copy_out (span low n) offset (index * 8 + low) p.bytes 0, read_at p (end / 8) (end % 8))
unfolding read_bits
read_bits-copy_out n offset index low p at_cursor g k s m =
    rw
      (
        at_cursor.cursor,
        le→ltb 32 (n + offset) g,
        le→ltb (length p.bytes) (with_needed (suc index) n (8 - low) - 1) (omega arith),
      )
      (read_loop_lem offset low n index 0 p at_cursor.within g k s)
