-- ===== src/Demos/Scalar.antt =====
-- What the games in demos take from C++ and SFML: floating-point numbers, whose operations are parameters, and what the
-- games ask of the scenegraph and of its RPC manager, in order.
pub mod Packets
use enki_net.Common.{ℕ, ◌-◌, ◌%◌, ◌^◌, Bool, List, ◌==◌, if◌then◌else◌, Outcome, ok, fault, ◌>>=◌}
use enki_net.Packet.{Packet}
use enki_net.Packet.Codec.{put_number, get_number}
use enki_net.Packet.Floats.{Floats}
use enki_net.Entity.{is_negative}

-- The operations. An int is its 32-bit pattern, which `of_int` and `int_of` convert; `literal` is a literal, as a
-- fraction; the sine and cosine of degrees are the doubles std::sin(angle * (3.1415 / 180.0f)) and
-- std::cos(angle * 3.1415 / 180.0f), cast to float; `turned` is the angle that SFML keeps of one that is set; `seconds`
-- is a number of nanoseconds in seconds; `one_minus x` is the double 1.0 - x, cast to float;
-- `bits` and `of_bits` are the representation of a float.
pub record Scalar (F : Type 0) : Type 0 where
  pub floats : Floats F
  pub lt : F → F → Bool
  pub le : F → F → Bool
  pub eq : F → F → Bool
  pub neg : F → F
  pub abs : F → F
  pub sqrt : F → F
  pub sin : F → F
  pub cos : F → F
  pub sin_degrees : F → F
  pub cos_degrees : F → F
  pub turned : F → F
  pub literal : ℕ → ℕ → F
  pub of_int : ℕ → F
  pub int_of : F → ℕ
  pub seconds : ℕ → F
  pub one_minus : F → F
  pub bits : F → ℕ
  pub of_bits : ℕ → F

-- A request: to create an entity of a type, with a name and an owner, on the network; to delete one; to create one of a type
-- and with a name on this client alone; or to call a
-- registered function on the entity itself, with arguments that come with their sizes.
pub data Request : Type 0 where
  creation : List ℕ → List ℕ → ℕ → Packet → Request
  deletion : ℕ → Request
  local_creation : List ℕ → List ℕ → Request
  call : List ℕ → List (ℕ × ℕ) → Request

module _ {F : Type 0} (ops : Scalar F) where
  -- A float that is written to a packet and read from it.
  unfoldable pub put_float : F → Packet → Outcome Packet
  put_float x p = put_number 4 (ops.bits x) p

  unfoldable pub get_float : Packet → Outcome (F × Packet)
  get_float p = get_number 4 p >>= λ (n, q). ok (ops.of_bits n, q)

-- std::rand() % m for an int m: by 0 it is undefined.
unfoldable pub rand_mod : ℕ → ℕ → Outcome ℕ
rand_mod r m = if m == 0 then fault else ok (r % (if is_negative m then 2 ^ 32 - m else m))
