-- ===== src/Tests/Floats.antt =====
-- Compressed floats with fractions of natural numbers in place of floating-point numbers.
use enki_net.Common.{ℕ, ◌+◌, ◌-◌, ◌*◌, ◌/◌, refl, leb, if◌then◌else◌, arith}
use enki_net.Packet.{empty, of_header, header_bytes}
use enki_net.Packet.Bits.{align_writer}
use enki_net.Packet.Bits.Copies.{IsBytes}
use enki_net.Packet.Bits.Writer.{WritesAt}
use enki_net.Packet.Floats.{Floats, bits_required, max_possible_values, final_value, decoded}
use enki_net.Packet.Floats.RoundTrip.{
  IsExact, GivesBack, write_compressed_float-GivesBack, write_compressed_float_top,
}

abbrev Fraction : Type 0
Fraction = ℕ × ℕ

abbrev fractions : Floats Fraction
fractions = record {
  sub = λ x y. (x.0 * y.1 - y.0 * x.1, x.1 * y.1);
  add = λ x y. (x.0 * y.1 + y.0 * x.1, x.1 * y.1);
  mul = λ x y. (x.0 * y.0, x.1 * y.1);
  div = λ x y. (x.0 * y.1, x.1 * y.0);
  clamp = λ x. if leb x.0 x.1 then x else (1, 1);
  ceil = λ x. (x.0 + x.1 - 1) / x.1;
  round = λ x. (2 * x.0 + x.1) / (2 * x.1);
  of_int = λ n. (n, 1);
  log2 = λ n. if leb n 4 then 2 else 8;
}

empty-WritesAt : WritesAt empty 8 0
unfolding align_writer empty of_header
empty-WritesAt = record { cursor = refl; within = omega arith }

empty-IsBytes : IsBytes empty.bytes
unfolding empty of_header header_bytes
empty-IsBytes = (
  omega arith,
  (
    omega arith,
    (omega arith, (omega arith, (omega arith, (omega arith, (omega arith, (omega arith, tt)))))),
  ),
)

-- Quarters: the range from 10 to 14 in steps of 1.
abbrev quarters : Floats ℕ
quarters = record {
  sub = λ x y. x - y;
  add = λ x y. x + y;
  mul = λ x y. x * y / 4;
  div = λ x y. 4 * x / y;
  clamp = λ x. if leb x 4 then x else 4;
  ceil = λ x. (x + 3) / 4;
  round = λ x. (x + 2) / 4;
  of_int = λ n. 4 * n;
  log2 = λ n. if leb n 4 then 2 else 8;
}

quarters-IsExact : IsExact quarters 40 56 4
quarters-IsExact = record {
  unshift = λ k h. omega (arith, h);
  unscale = λ k h. omega (arith, h);
  kept = λ k h. ground (arith, h);
  unshare = λ k h. omega (arith, h);
  rounds = λ k h. omega (arith, h);
}

write_compressed_float-GivesBack_example : GivesBack quarters 40 56 4 8 0 empty 52 52
write_compressed_float-GivesBack_example =
    write_compressed_float-GivesBack quarters 40 56 4 4 3 8 0 empty refl quarters-IsExact
      (omega arith) (omega arith) (omega arith) (omega arith) empty-WritesAt empty-IsBytes

write_compressed_float_top_example :
    GivesBack fractions
      (0, 1)
      (4, 1)
      (1, 1)
      8
      0
      empty
      (4, 1)
      (decoded fractions (0, 1) (4, 1) (1, 1) 0)
unfolding bits_required final_value max_possible_values
write_compressed_float_top_example =
    write_compressed_float_top fractions (0, 1) (4, 1) (1, 1) 8 empty (4, 1) empty-WritesAt
      empty-IsBytes (omega arith) (omega arith) refl
