-- ===== src/Packet/RoundTrip.antt =====
-- What the stream operators write is what they read back.
pub mod Nested
pub mod Sequences
use native.Mathlib.Nat.{pow-suc}
use enki_net.Common.{
  ℕ, zero, suc, ◌+◌, ◌-◌, ◌*◌, ◌/◌, ◌%◌, ◌^◌, ◌≤◌, ◌<◌, ◌≡◌, refl, sym, ap, ap₂, ◌∙◌, List, [], ◌∷◌,
  ◌++◌, append_assoc, append-nil, Bool, true, false, none, some, length, take, drop, poke, ltb,
  le→ltb, length-append, take-append, drop-append, Outcome, ok, throws, null_serialize, ◌>>=◌,
  arith, if◌then◌else◌, length-poke, take-poke, take_all,
}
use enki_net.Packet.{Packet, le_bytes, of_le_bytes, serialize, deserialize}
use enki_net.Packet.Codec.{
  put_number, get_number, put_string, get_string, put_vector, get_vector, put_array, get_array,
  element_bytes, elements, vector_data, data_is_null,
}
use enki_net.Packet.Laws.{
  Writes, Reads, Ready, Ready-advance, advance, serialize-Writes, deserialize-Reads, Writes-bind,
  Reads-bind,
}

pub length-le_bytes : (w n : ℕ) → length (le_bytes w n) ≡ w
length-le_bytes zero n = refl
length-le_bytes (suc w) n = ap suc (length-le_bytes w (n / 256))

pub of_le_bytes-le_bytes : (w n : ℕ) → n < 256 ^ w → of_le_bytes (le_bytes w n) ≡ n
of_le_bytes-le_bytes zero n h = omega arith
of_le_bytes-le_bytes (suc w) n h =
    omega (arith, of_le_bytes-le_bytes w (n / 256) (omega (arith, pow-suc 256 w)))

pub put_number-Writes :
    (w n : ℕ) (p : Packet)
    → p.bytes_written ≤ length p.bytes
    → Writes (put_number w n p) p (le_bytes w n)
unfolding put_number
put_number-Writes w n p h = serialize-Writes (le_bytes w n) p h

pub get_number-Reads : (w n : ℕ) → n < 256 ^ w → Reads (get_number w) n (le_bytes w n)
unfolding get_number
get_number-Reads w n h p rest r = rw (got, of_le_bytes-le_bytes w n h) refl
  where
    got : deserialize false w p ≡ ok (le_bytes w n, advance p (length (le_bytes w n)))
    got =
        ap (λ (k : ℕ). deserialize false k p) (sym (length-le_bytes w n))
        ∙ deserialize-Reads (le_bytes w n) p rest r

abbrev pub string_bytes : List ℕ → List ℕ
string_bytes s = le_bytes 8 (length s) ++ s

pub put_string-Writes :
    (s : List ℕ) (p : Packet)
    → p.bytes_written ≤ length p.bytes
    → Writes (put_string s p) p (string_bytes s)
unfolding put_string
put_string-Writes s p h =
    Writes-bind (put_number 8 (length s) p) (serialize (some s)) p (le_bytes 8 (length s)) s
      (put_number-Writes 8 (length s) p h) (serialize-Writes s)

pub get_string-Reads : (s : List ℕ) → length s < 256 ^ 8 → Reads get_string s (string_bytes s)
unfolding get_string
get_string-Reads s h =
    Reads-bind (get_number 8) (λ (n, q). deserialize false n q) (length s) s (le_bytes 8 (length s))
      s (get_number-Reads 8 (length s) h) (deserialize-Reads s)
