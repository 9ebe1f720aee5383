-- ===== src/Packet/Floats.antt =====
-- writeCompressedFloat and readCompressedFloat of src/EnkiNet/Networking/Packet.cpp, over a type of
-- floating-point numbers whose operations are parameters. The int that a rounding gives is not negative
-- here, as for a range with min below max.
pub mod RoundTrip
use enki_net.Common.{ℕ, Outcome, ok, ◌>>=◌}
use enki_net.Packet.{Packet}
use enki_net.Packet.Bits.{write_bits, read_bits}

-- The operations; `clamp` is std::clamp to the range from 0 to 1, `ceil` and `round` are cast to an int, and `log2` is
-- the ceiling of log(n) / log(2), cast to an int.
pub record Floats (F : Type 0) : Type 0 where
  pub sub : F → F → F
  pub add : F → F → F
  pub mul : F → F → F
  pub div : F → F → F
  pub clamp : F → F
  pub ceil : F → ℕ
  pub round : F → ℕ
  pub of_int : ℕ → F
  pub log2 : ℕ → ℕ

module _ {F : Type 0} (ops : Floats F) (low high resolution : F) where
  -- max_possible_values and bits_required
  unfoldable pub max_possible_values : ℕ
  max_possible_values = ops.ceil (ops.div (ops.sub high low) resolution)

  unfoldable pub bits_required : ℕ
  unfolding max_possible_values
  bits_required = ops.log2 max_possible_values

  -- The final_value of writeCompressedFloat.
  unfoldable pub final_value : F → ℕ
  unfolding max_possible_values
  final_value x = ops.round (
      ops.mul (ops.clamp (ops.div (ops.sub x low) (ops.sub high low)))
        (ops.of_int max_possible_values))

  -- What readCompressedFloat makes of it.
  unfoldable pub decoded : ℕ → F
  unfolding max_possible_values
  decoded value =
      ops.add
        (ops.mul (ops.div (ops.of_int value) (ops.of_int max_possible_values)) (ops.sub high low))
        low

  unfoldable pub write_compressed_float : F → Packet → Outcome Packet
  unfolding final_value bits_required
  write_compressed_float x p = write_bits (final_value x) bits_required 0 p

  unfoldable pub read_compressed_float : Packet → Outcome (F × Packet)
  unfolding decoded bits_required
  read_compressed_float p = read_bits bits_required 0 p >>= λ (value, q). ok (decoded value, q)
