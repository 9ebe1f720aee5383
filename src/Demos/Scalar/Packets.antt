-- ===== src/Demos/Scalar/Packets.antt =====
-- Floats in packets: what the demos write with put_float is what they read with get_float.
use enki_net.Common.{ℕ, ◌^◌, ◌≤◌, ◌<◌, ◌≡◌, length}
use enki_net.Packet.{Packet, le_bytes}
use enki_net.Packet.Codec.{get_number}
use enki_net.Packet.Laws.{Writes, Reads, Reads-map}
use enki_net.Packet.RoundTrip.{put_number-Writes, get_number-Reads}
use enki_net.Demos.Scalar.{Scalar, put_float, get_float}

-- A float has 32 bits, and they determine it.
pub record IsScalar {F : Type 0} (ops : Scalar F) : Type 0 where
  pub fits : (x : F) → ops.bits x < 2 ^ 32
  pub of_bits-bits : (x : F) → ops.of_bits (ops.bits x) ≡ x

module _ {F : Type 0} (ops : Scalar F) where
  pub put_float-Writes :
      (x : F) (p : Packet)
      → p.bytes_written ≤ length p.bytes
      → Writes (put_float ops x p) p (le_bytes 4 (ops.bits x))
  unfolding put_float
  put_float-Writes x p room = put_number-Writes 4 (ops.bits x) p room

  pub get_float-Reads : (n : ℕ) → n < 2 ^ 32 → Reads (get_float ops) (ops.of_bits n) (le_bytes 4 n)
  unfolding get_float
  get_float-Reads n fits =
      Reads-map (get_number 4) ops.of_bits n (le_bytes 4 n) (get_number-Reads 4 n fits)
