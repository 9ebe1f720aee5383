-- ===== src/Packet/Bits/Rounds.antt =====
-- The rounds of the loop of writeBits: each copies the bits that it moves.
use enki_net.Common.{
  ℕ, zero, suc, ◌+◌, ◌-◌, ◌*◌, ◌/◌, ◌%◌, ◌≤◌, ◌<◌, ◌≡◌, refl, ◌∙◌, List, length, leb, lt→leb,
  le→leb, lt→ltb, leb→le, leb→lt, suc-==-zero, ok, arith, Bool-cases, inl, inr,
}
use enki_net.Packet.{Packet}
use enki_net.Packet.Bits.{write_loop}
use enki_net.Packet.Bits.Reference.{copy_in, copy_in-add, length-copy_in, write_chunk-copy_in}

-- The packet with this buffer and its write cursor at bit `low` of byte `index`.
abbrev pub write_at : Packet → List ℕ → ℕ → ℕ → Packet
write_at p bytes index low = record p {
  bytes = bytes;
  bytes_written = suc index;
  bits_written = low;
}

module _ (word offset : ℕ) where
  pub write_loop_done :
      (fuel total available : ℕ) (p : Packet)
      → 0 < fuel
      → write_loop word offset fuel total 0 available p ≡ ok p
  unfolding write_loop
  write_loop_done zero total available p h = absurd (omega arith)
  write_loop_done (suc fuel) total available p h = refl

  write_loop_whole :
      (fuel total l index : ℕ) (p : Packet) (bytes : List ℕ)
      → 8 ≤ suc l
      → suc l ≤ total
      → total + offset ≤ 32
      → index < length bytes
      → write_loop word offset (suc fuel) total (suc l) 8 (write_at p bytes index 0)
        ≡ write_loop word offset fuel total
            (suc l - 8)
            8
            (write_at p (copy_in 8 word (offset + (total - suc l)) (index * 8) bytes) (suc index) 0)
  unfolding write_loop
  write_loop_whole fuel total l index p bytes h g k s =
      let a : suc index - 1 ≡ index = omega arith in
      let b : suc index + 1 ≡ suc (suc index) = omega arith in
      let c : 0 + offset + (total - suc l) ≡ offset + (total - suc l) = omega arith in
      let d : index * 8 + 0 + 0 ≡ index * 8 = omega arith in
      rw
        (
          suc-==-zero l,
          le→leb 1 (suc l / 8) (omega arith),
          a,
          write_chunk-copy_in word offset 8 0 (total - suc l) 0 index bytes (omega arith)
              (omega arith) s,
          b,
          c,
          d,
        )
        refl

  write_loop_last :
      (fuel total l index : ℕ) (p : Packet) (bytes : List ℕ)
      → suc l < 8
      → suc l ≤ total
      → total + offset ≤ 32
      → index < length bytes
      → 0 < fuel
      → write_loop word offset (suc fuel) total (suc l) 8 (write_at p bytes index 0)
        ≡ ok (
            write_at p
              (copy_in (suc l) word (offset + (total - suc l)) (index * 8) bytes)
              index
              (suc l))
  unfolding write_loop
  write_loop_last fuel total l index p bytes h g k s f =
      let a : suc index - 1 ≡ index = omega arith in
      let b : suc l % 8 ≡ suc l = omega arith in
      let c : 0 + offset + (total - suc l) ≡ offset + (total - suc l) = omega arith in
      let d : index * 8 + 0 + 0 ≡ index * 8 = omega arith in
      let e : 0 + suc l ≡ suc l = omega arith in
      rw
        (
          suc-==-zero l,
          lt→leb 1 (suc l / 8) (omega arith),
          a,
          b,
          write_chunk-copy_in word offset (suc l) 0 (total - suc l) 0 index bytes (omega arith)
              (omega arith) s,
          c,
          d,
          e,
        )
        (write_loop_done fuel total 8 _ f)

  -- From a fresh byte on, with enough rounds.
  pub write_loop_fresh :
      (fuel total left index : ℕ) (p : Packet) (bytes : List ℕ)
      → left < fuel
      → left ≤ total
      → total + offset ≤ 32
      → index + (left + 7) / 8 ≤ length bytes
      → write_loop word offset fuel total left 8 (write_at p bytes index 0)
        ≡ ok (
            write_at p
              (copy_in left word (offset + (total - left)) (index * 8) bytes)
              (index + left / 8)
              (left % 8))
  unfolding copy_in
  write_loop_fresh zero total left index p bytes f g k s = absurd (omega arith)
  write_loop_fresh (suc fuel) total zero index p bytes f g k s =
      let a : index + 0 ≡ index = omega arith in
      rw a (write_loop_done (suc fuel) total 8 (write_at p bytes index 0) (omega arith))
  write_loop_fresh (suc fuel) total (suc l) index p bytes f g k s =
      elim (Bool-cases (leb 8 (suc l))) [
        | inl h ↦
            let long : 8 ≤ suc l = leb→le 8 (suc l) h in
            rw (write_loop_whole fuel total l index p bytes long g k (omega arith)) (
              write_loop_fresh fuel total (suc l - 8) (suc index) p
                (copy_in 8 word (offset + (total - suc l)) (index * 8) bytes) (omega arith)
                (omega arith) k (rw length-copy_in (omega arith))
              ∙ joined long)
        | inr h ↦
            let short : suc l < 8 = leb→lt 8 (suc l) h in
            let a : index + suc l / 8 ≡ index = omega arith in
            let b : suc l % 8 ≡ suc l = omega arith in
            rw (a, b)
              (write_loop_last fuel total l index p bytes short g k (omega arith) (omega arith))
      ]
    where
      joined :
          8 ≤ suc l
          → ok (
              write_at p
                (copy_in
                  (suc l - 8)
                  word
                  (offset + (total - (suc l - 8)))
                  (suc index * 8)
                  (copy_in 8 word (offset + (total - suc l)) (index * 8) bytes))
                (suc index + (suc l - 8) / 8)
                ((suc l - 8) % 8))
            ≡ ok (
                write_at p
                  (copy_in (suc l) word (offset + (total - suc l)) (index * 8) bytes)
                  (index + suc l / 8)
                  (suc l % 8))
      joined long =
          let a : offset + (total - (suc l - 8)) ≡ offset + (total - suc l) + 8 = omega arith in
          let b : suc index * 8 ≡ index * 8 + 8 = omega arith in
          let c : suc index + (suc l - 8) / 8 ≡ index + suc l / 8 = omega arith in
          let d : (suc l - 8) % 8 ≡ suc l % 8 = omega arith in
          let e : 8 + (suc l - 8) ≡ suc l = omega arith in
          rw (
            a,
            b,
            c,
            d,
            copy_in-add 8 (suc l - 8) word (offset + (total - suc l)) (index * 8) bytes,
            e,
          )

  -- The first round, in a byte that is written in part.
  pub write_loop_fill :
      (fuel total l index low : ℕ) (p : Packet) (bytes : List ℕ)
      → 0 < low
      → low < 8
      → 8 - low + offset ≤ 32
      → index < length bytes
      → write_loop word offset (suc fuel) total (suc l) (8 - low) (write_at p bytes index low)
        ≡ write_loop word offset fuel total
            (suc l - (8 - low))
            8
            (write_at p (copy_in (8 - low) word offset (index * 8 + low) bytes) (suc index) 0)
  unfolding write_loop
  write_loop_fill fuel total l index low p bytes h g k s =
      let a : suc index - 1 ≡ index = omega arith in
      let b : suc index + 1 ≡ suc (suc index) = omega arith in
      let c : 0 + offset + 0 ≡ offset = omega arith in
      let d : index * 8 + 0 + low ≡ index * 8 + low = omega arith in
      rw
        (
          suc-==-zero l,
          lt→ltb (8 - low) 8 (omega arith),
          a,
          write_chunk-copy_in word offset (8 - low) 0 0 low index bytes (omega arith) (omega arith)
              s,
          b,
          c,
          d,
        )
        refl
