-- ===== src/Packet/Codec.antt =====
-- The stream operators of src/EnkiNet/Networking/Packet.hpp and Packet.cpp on top of `serialize` and
-- `deserialize`. A number is its object representation read as an unsigned number of `w` bytes.
use enki_net.Common.{
  ℕ, zero, suc, ◌*◌, List, [], ◌∷◌, ◌++◌, Bool, false, Option, none, some, length, take, drop, poke,
  ltb, if◌then◌else◌, Outcome, ok, throws, ◌>>=◌, array_mismatch,
}
use enki_net.Packet.{Packet, le_bytes, of_le_bytes, sizeof_size_t, serialize, deserialize, of_data}

-- operator<<(T) and operator>>(T&) for an arithmetic type of `w` bytes.
unfoldable pub put_number : ℕ → ℕ → Packet → Outcome Packet
put_number w n p = serialize (some (le_bytes w n)) p

unfoldable pub get_number : ℕ → Packet → Outcome (ℕ × Packet)
get_number w p = do (bs, q) ← deserialize false w p; ok (of_le_bytes bs, q)

-- operator<<(std::string) and operator>>(std::string&): data() of a string is never null.
unfoldable pub put_string : List ℕ → Packet → Outcome Packet
unfolding put_number
put_string s p = do q ← put_number sizeof_size_t (length s) p; serialize (some s) q

unfoldable pub get_string : Packet → Outcome (List ℕ × Packet)
unfolding get_number
get_string p = do (n, q) ← get_number sizeof_size_t p; deserialize false n q

-- The bytes of the elements, one after the other, and back.
abbrev pub element_bytes : ℕ → List ℕ → List ℕ
element_bytes w [] = []
element_bytes w (x ∷ xs) = le_bytes w x ++ element_bytes w xs

abbrev pub elements : ℕ → ℕ → List ℕ → List ℕ
elements w zero bs = []
elements w (suc n) bs = of_le_bytes (take w bs) ∷ elements w n (drop w bs)

-- data() of a vector; for an empty one the standard leaves open whether it is null.
module _ (null_when_empty : Bool) where
  abbrev pub vector_data : List ℕ → Option (List ℕ)
  vector_data [] = if null_when_empty then none else some []
  vector_data (b ∷ bs) = some (b ∷ bs)

  abbrev pub data_is_null : ℕ → Bool
  data_is_null zero = null_when_empty
  data_is_null (suc n) = false

  -- operator<<(std::vector<T>) and operator>>(std::vector<T>&), with sizeof(T) = w.
  unfoldable pub put_vector : ℕ → List ℕ → Packet → Outcome Packet
  unfolding put_number
  put_vector w xs p = do
    q ← put_number sizeof_size_t (length xs) p
    serialize (vector_data (element_bytes w xs)) q

  unfoldable pub get_vector : ℕ → Packet → Outcome (List ℕ × Packet)
  unfolding get_number
  get_vector w p = do
    (n, q) ← get_number sizeof_size_t p
    (bs, r) ← deserialize (data_is_null n) (w * n) q
    ok (elements w n bs, r)

  -- operator<<(Packet&) and operator>>(Packet&): the whole buffer goes as a vector of bytes.
  unfoldable pub put_packet : Packet → Packet → Outcome Packet
  unfolding put_vector
  put_packet inner p = put_vector 1 inner.bytes p

  unfoldable pub get_packet : Packet → Outcome (Packet × Packet)
  unfolding get_vector of_data
  get_packet p = do (bs, q) ← get_vector 1 p; inner ← of_data bs; ok (inner, q)

-- operator<<(std::array<T, size>) and operator>>(std::array<T, size>&) for a size that is not 0. The
-- reader copies as many bytes, not elements, as the stored size says over the array's old bytes.
unfoldable pub put_array : ℕ → List ℕ → Packet → Outcome Packet
unfolding put_number
put_array w xs p = do
  q ← put_number sizeof_size_t (length xs) p
  serialize (some (element_bytes w xs)) q

unfoldable pub get_array : ℕ → List ℕ → Packet → Outcome (List ℕ × Packet)
unfolding get_number
get_array w old p = do
  (n, q) ← get_number sizeof_size_t p
  if ltb (length old) n then throws array_mismatch else do
    (bs, r) ← deserialize false n q
    ok (elements w (length old) (poke (element_bytes w old) bs), r)
