-- ===== src/Tests/Scalars.antt =====
-- Scalars for the tests: whole numbers, and numbers that are 0 or 1; and an asteroid over them.
use enki_net.Common.{
  ℕ, ◌+◌, ◌-◌, ◌*◌, ◌^◌, ◌<◌, ◌≡◌, refl, Bool, true, false, not, ◌&&◌, ◌==◌, if◌then◌else◌, ltb,
  leb, arith,
}
use enki_net.Packet.Floats.{Floats}
use enki_net.Demos.Scalar.{Scalar}
use enki_net.Demos.Scalar.Packets.{IsScalar}
use enki_net.Demos.Asteroids.Asteroid.{Asteroid, Rands, new_asteroid}
use enki_net.Tests.Worlds.{tank}

-- Whole numbers, where a fraction is cut off and what would be below 0 is 0.
abbrev pub whole_floats : Floats ℕ
whole_floats = record {
  sub = λ a b. a - b;
  add = λ a b. a + b;
  mul = λ a b. a * b;
  div = λ a b. a;
  clamp = λ a. a;
  ceil = λ a. a;
  round = λ a. a;
  of_int = λ n. n;
  log2 = λ n. n;
}

abbrev pub whole : Scalar ℕ
whole = record {
  floats = whole_floats;
  lt = ltb;
  le = leb;
  eq = ◌==◌;
  neg = λ a. 0;
  abs = λ a. a;
  sqrt = λ a. a;
  sin = λ a. 0;
  cos = λ a. 0;
  sin_degrees = λ a. 0;
  cos_degrees = λ a. 0;
  turned = λ a. a;
  literal = λ n d. n;
  of_int = λ n. n;
  int_of = λ a. a;
  seconds = λ n. n;
  one_minus = λ a. 1 - a;
  bits = λ a. a;
  of_bits = λ n. n;
}

-- Numbers that are 0 or 1.
abbrev pub digit_floats : Floats Bool
digit_floats = record {
  sub = λ a b. a;
  add = λ a b. a;
  mul = λ a b. a && b;
  div = λ a b. a;
  clamp = λ a. a;
  ceil = λ a. 1;
  round = λ a. if a then 1 else 0;
  of_int = λ n. not (n == 0);
  log2 = λ n. 1;
}

abbrev pub digits : Scalar Bool
digits = record {
  floats = digit_floats;
  lt = λ a b. not a && b;
  le = λ a b. not a;
  eq = λ a b. if a then b else not b;
  neg = λ a. a;
  abs = λ a. a;
  sqrt = λ a. a;
  sin = λ a. false;
  cos = λ a. true;
  sin_degrees = λ a. false;
  cos_degrees = λ a. true;
  turned = λ a. a;
  literal = λ n d. not (n == 0);
  of_int = λ n. not (n == 0);
  int_of = λ a. if a then 1 else 0;
  seconds = λ n. not (n == 0);
  one_minus = λ a. not a;
  bits = λ a. if a then 1 else 0;
  of_bits = λ n. n == 1;
}

pub digits-IsScalar : IsScalar digits
digits-IsScalar = record {
  fits = λ a. elim a as (λ b. (if b then 1 else 0) < 2 ^ 32) [
    | true ↦ omega arith
    | false ↦ omega arith
  ];
  of_bits-bits =
      λ a. elim a as (λ b. ((if b then 1 else 0) == 1) ≡ b) [ true ↦ refl | false ↦ refl ];
}

abbrev pub draw : Rands
draw = record { first = 3; second = 4; third = 5 }

-- An asteroid of twelve points.
abbrev pub rock : {F : Type 0} → Scalar F → Asteroid F
rock ops = record (new_asteroid ops tank) { point_count = 12 }
