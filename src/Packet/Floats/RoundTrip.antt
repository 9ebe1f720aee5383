-- ===== src/Packet/Floats/RoundTrip.antt =====
-- What a compressed float is when it is read back.
use enki_net.Common.{ℕ, zero, suc, ◌/◌, ◌^◌, ◌≤◌, ◌<◌, ◌≡◌, refl, ap, ◌∙◌, ok, arith}
use enki_net.Common.Bits.{bit}
use enki_net.Packet.{Packet}
use enki_net.Packet.Bits.Copies.{IsBytes}
use enki_net.Packet.Bits.Reader.{read_at}
use enki_net.Packet.Bits.Reference.{span}
use enki_net.Packet.Bits.RoundTrip.{ReadsAs, write_bits-ReadsAs}
use enki_net.Packet.Bits.Writer.{WritesAt}
use enki_net.Packet.Floats.{
  Floats, max_possible_values, bits_required, final_value, decoded, write_compressed_float,
  read_compressed_float,
}

-- Writing `x` and reading from the same place gives `result`, the read cursor ending where the write cursor ended.
pub record GivesBack {F : Type 0} (ops : Floats F) (low high resolution : F) (index start : ℕ)
    (p : Packet) (x result : F) : Type 0 where
  pub after : Packet
  pub writes : write_compressed_float ops low high resolution x p ≡ ok after
  pub reads :
      read_compressed_float ops low high resolution (read_at after index start)
      ≡ ok (
        result,
        record after { bytes_read = after.bytes_written; bits_read = after.bits_written },
      )

-- The point number `k` of a range with `n` steps.
abbrev pub value_at : {F : Type 0} → Floats F → F → F → ℕ → ℕ → F
value_at ops low high n k =
    ops.add (ops.mul (ops.div (ops.of_int k) (ops.of_int n)) (ops.sub high low)) low

-- At the points of a range with `n` steps each operation is undone by its inverse, without a loss.
pub record IsExact {F : Type 0} (ops : Floats F) (low high : F) (n : ℕ) : Type 0 where
  pub unshift :
      (k : ℕ)
      → k ≤ n
      → ops.sub (value_at ops low high n k) low
        ≡ ops.mul (ops.div (ops.of_int k) (ops.of_int n)) (ops.sub high low)
  pub unscale :
      (k : ℕ)
      → k ≤ n
      → ops.div
          (ops.mul (ops.div (ops.of_int k) (ops.of_int n)) (ops.sub high low))
          (ops.sub high low)
        ≡ ops.div (ops.of_int k) (ops.of_int n)
  pub kept :
      (k : ℕ)
      → k ≤ n
      → ops.clamp (ops.div (ops.of_int k) (ops.of_int n)) ≡ ops.div (ops.of_int k) (ops.of_int n)
  pub unshare :
      (k : ℕ)
      → k ≤ n
      → ops.mul (ops.div (ops.of_int k) (ops.of_int n)) (ops.of_int n) ≡ ops.of_int k
  pub rounds : (k : ℕ) → k ≤ n → ops.round (ops.of_int k) ≡ k

-- The powers of two.
pow_ge : (a b : ℕ) → a ≤ b → 2 ^ a ≤ 2 ^ b
pow_ge zero zero h = omega arith
pow_ge (suc a) zero h = absurd (omega arith)
pow_ge zero (suc b) h = omega (arith, pow_ge zero b (omega arith))
pow_ge (suc a) (suc b) h = omega (arith, pow_ge a b (omega arith))

span_ge : (start n : ℕ) → n ≤ span start n
span_ge start zero = omega arith
span_ge zero (suc n) = omega arith
span_ge (suc start) (suc n) = omega arith

bit_pow_below : (j k : ℕ) → j < k → bit j (2 ^ k) ≡ bit j 0
bit_pow_below j zero h = absurd (omega arith)
bit_pow_below zero (suc k) h = omega arith
bit_pow_below (suc j) (suc k) h =
    let half : 2 ^ suc k / 2 ≡ 2 ^ k = omega arith in
    let nothing : 0 / 2 ≡ 0 = refl in
    ap (bit j) half ∙ bit_pow_below j k (omega arith) ∙ ap (bit j) nothing

module _ {F : Type 0} (ops : Floats F) (low high resolution : F) where
  gives_back :
      (value index start : ℕ) (p : Packet) (x : F)
      → ReadsAs
          (final_value ops low high resolution x)
          value
          (bits_required ops low high resolution)
          index
          start
          p
      → GivesBack ops low high resolution index start p x (decoded ops low high resolution value)
  unfolding write_compressed_float read_compressed_float
  gives_back value index start p x back = record {
    after = back.after;
    writes = back.writes;
    reads = rw back.reads refl;
  }

  -- From a cursor in a buffer of bytes, a float whose final value fits the bits is read back as what this is decoded to.
  write_compressed_float-decoded :
      (index start : ℕ) (p : Packet) (x : F)
      → WritesAt p index start
      → IsBytes p.bytes
      → 0 < bits_required ops low high resolution
      → bits_required ops low high resolution < 32
      → final_value ops low high resolution x < 2 ^ bits_required ops low high resolution
      → GivesBack ops low high resolution index start p x
          (decoded ops low high resolution (final_value ops low high resolution x))
  write_compressed_float-decoded index start p x at bytes some_bits few fits =
      let v = final_value ops low high resolution x in
      let n = bits_required ops low high resolution in
      gives_back v index start p x (
        write_bits-ReadsAs v v n index start p at bytes some_bits (omega arith)
          (omega (arith, pow_ge n (span start n) (span_ge start n)))
          (omega (arith, pow_ge n 32 (omega arith))) (λ j l. refl))

  final_value-value_at :
      (n k : ℕ)
      → ops.ceil (ops.div (ops.sub high low) resolution) ≡ n
      → IsExact ops low high n
      → k ≤ n
      → final_value ops low high resolution (value_at ops low high n k) ≡ k
  unfolding final_value max_possible_values
  final_value-value_at n k count exact within =
      let x = value_at ops low high n k in
      let width = ops.sub high low in
      ap (λ (m : ℕ). ops.round (ops.mul (ops.clamp (ops.div (ops.sub x low) width)) (ops.of_int m)))
        count
      ∙ ap (λ (a : F). ops.round (ops.mul (ops.clamp (ops.div a width)) (ops.of_int n)))
          (exact.unshift k within)
      ∙ ap (λ (a : F). ops.round (ops.mul (ops.clamp a) (ops.of_int n))) (exact.unscale k within)
      ∙ ap (λ (a : F). ops.round (ops.mul a (ops.of_int n))) (exact.kept k within)
      ∙ ap ops.round (exact.unshare k within)
      ∙ exact.rounds k within

  decoded-value_at :
      (n k : ℕ)
      → ops.ceil (ops.div (ops.sub high low) resolution) ≡ n
      → decoded ops low high resolution k ≡ value_at ops low high n k
  unfolding decoded max_possible_values
  decoded-value_at n k count = ap (λ (m : ℕ). value_at ops low high m k) count

  bits_lem :
      (n : ℕ)
      → ops.ceil (ops.div (ops.sub high low) resolution) ≡ n
      → bits_required ops low high resolution ≡ ops.log2 n
  unfolding bits_required max_possible_values
  bits_lem n count = ap ops.log2 count

  -- If the range holds `n` steps of the resolution, and the arithmetic is exact on the points min + k / n * (max - min),
  -- as for powers of two, then from a cursor in a buffer of bytes, the point with a number `k` that fits the bits, 1 to
  -- 31, which log2 gives for `n`, is read back from the place where it was written as it was, and the read cursor ends
  -- where the write cursor ended.
  pub write_compressed_float-GivesBack :
      (n k index start : ℕ) (p : Packet)
      → ops.ceil (ops.div (ops.sub high low) resolution) ≡ n
      → IsExact ops low high n
      → k ≤ n
      → k < 2 ^ ops.log2 n
      → 0 < ops.log2 n
      → ops.log2 n < 32
      → WritesAt p index start
      → IsBytes p.bytes
      → GivesBack ops low high resolution index start p
          (value_at ops low high n k)
          (value_at ops low high n k)
  write_compressed_float-GivesBack n k index start p count exact within fits some_bits few at
        bytes =
      let x = value_at ops low high n k in
      let kept = final_value-value_at n k count exact within in
      let bits = bits_lem n count in
      rw (ap (decoded ops low high resolution) kept ∙ decoded-value_at n k count) at (
        write_compressed_float-decoded index start p x at bytes (rw bits some_bits) (rw bits few)
          (rw (kept, bits) fits))

  -- At the border of a byte, a float whose final value is 2 to the power of the bits that are required, as for the
  -- top of the range if the number of possible values is a power of two, is read back as the float that stands for 0.
  pub write_compressed_float_top :
      (index : ℕ) (p : Packet) (x : F)
      → WritesAt p index 0
      → IsBytes p.bytes
      → 0 < bits_required ops low high resolution
      → bits_required ops low high resolution < 32
      → final_value ops low high resolution x ≡ 2 ^ bits_required ops low high resolution
      → GivesBack ops low high resolution index 0 p x (decoded ops low high resolution 0)
  write_compressed_float_top index p x at bytes some_bits few top =
      let v = final_value ops low high resolution x in
      let n = bits_required ops low high resolution in
      gives_back 0 index 0 p x (
        write_bits-ReadsAs v 0 n index 0 p at bytes some_bits (omega arith)
          (omega (arith, pow_ge 0 (span 0 n) (omega arith))) (omega arith)
          (λ j l. ap (bit j) top ∙ bit_pow_below j n (below n j l)))
    where
      below : (n j : ℕ) → j < span 0 n → j < n
      below zero j l = l
      below (suc n) j l = l
