-- ===== src/Packet/RoundTrip/Sequences.antt =====
-- The codecs of std::vector and std::array.
use enki_net.Common.{
  ℕ, zero, suc, ◌+◌, ◌*◌, ◌^◌, ◌≤◌, ◌<◌, ◌≡◌, refl, sym, ap, ap₂, ◌∙◌, List, [], ◌∷◌, ◌++◌,
  append_assoc, Bool, true, false, some, length, take, drop, poke, le→ltb, length-append,
  take-append, drop-append, ok, throws, null_serialize, ◌>>=◌, arith, length-poke, take-poke,
  take_all,
}
use enki_net.Packet.{Packet, le_bytes, serialize, deserialize}
use enki_net.Packet.Codec.{
  put_number, get_number, put_vector, get_vector, put_array, get_array, element_bytes, elements,
  vector_data,
}
use enki_net.Packet.Laws.{
  Writes, Reads, Ready, Ready-advance, Ready-length, advance, serialize-Writes, deserialize-Reads,
  Writes-bind, Reads-bind,
}
use enki_net.Packet.RoundTrip.{
  length-le_bytes, of_le_bytes-le_bytes, put_number-Writes, get_number-Reads,
}

-- Each element fits the width of its type.
abbrev pub Fits : ℕ → List ℕ → Type 0
Fits w [] = Unit {0}
Fits w (x ∷ xs) = (x < 256 ^ w) × Fits w xs

pub length-element_bytes : (w : ℕ) (xs : List ℕ) → length (element_bytes w xs) ≡ w * length xs
length-element_bytes w [] = omega arith
length-element_bytes w (x ∷ xs) = omega (
  arith,
  length-append (le_bytes w x) (element_bytes w xs),
  length-le_bytes w x,
  length-element_bytes w xs,
)

take-le_bytes : (w x : ℕ) (bs : List ℕ) → take w (le_bytes w x ++ bs) ≡ le_bytes w x
take-le_bytes w x bs =
    ap (λ (k : ℕ). take k (le_bytes w x ++ bs)) (sym (length-le_bytes w x))
    ∙ take-append (le_bytes w x) bs

drop-le_bytes : (w x : ℕ) (bs : List ℕ) → drop w (le_bytes w x ++ bs) ≡ bs
drop-le_bytes w x bs =
    ap (λ (k : ℕ). drop k (le_bytes w x ++ bs)) (sym (length-le_bytes w x))
    ∙ drop-append (le_bytes w x) bs

pub elements-element_bytes :
    (w : ℕ) (xs : List ℕ) → Fits w xs → elements w (length xs) (element_bytes w xs) ≡ xs
elements-element_bytes w [] h = refl
elements-element_bytes w (x ∷ xs) h =
    rw
      (
        take-le_bytes w x (element_bytes w xs),
        drop-le_bytes w x (element_bytes w xs),
        of_le_bytes-le_bytes w x h.0,
        elements-element_bytes w xs h.1,
      )
      refl

abbrev pub vector_bytes : ℕ → List ℕ → List ℕ
vector_bytes w xs = le_bytes 8 (length xs) ++ element_bytes w xs

vector_data-cons :
    (null : Bool) (w x : ℕ) (xs : List ℕ)
    → vector_data null (element_bytes (suc w) (x ∷ xs)) ≡ some (element_bytes (suc w) (x ∷ xs))
vector_data-cons null w x xs = refl

-- A vector with elements is appended whole, however data() treats empty vectors.
pub put_vector-Writes :
    (null : Bool) (w x : ℕ) (xs : List ℕ) (p : Packet)
    → p.bytes_written ≤ length p.bytes
    → Writes (put_vector null (suc w) (x ∷ xs) p) p (vector_bytes (suc w) (x ∷ xs))
unfolding put_vector
put_vector-Writes null w x xs p h =
    Writes-bind (put_number 8 (length (x ∷ xs)) p)
      (λ q. serialize (vector_data null (element_bytes (suc w) (x ∷ xs))) q) p
      (le_bytes 8 (length (x ∷ xs))) (element_bytes (suc w) (x ∷ xs))
      (put_number-Writes 8 (length (x ∷ xs)) p h)
      (serialize-Writes (element_bytes (suc w) (x ∷ xs)))

-- Where data() of an empty vector is null, writing one always throws.
pub put_vector_empty : (w : ℕ) (p : Packet) → put_vector true w [] p ≡ throws null_serialize
unfolding put_vector serialize
put_vector_empty w p = refl

element_block :
    (null : Bool) (w : ℕ) (xs : List ℕ)
    → Fits w xs
    → Reads
        (λ q. deserialize false (w * length xs) q >>= λ (bs, r). ok (elements w (length xs) bs, r))
        xs
        (element_bytes w xs)
element_block null w xs h p rest r =
    rw
      (
        ap (λ (k : ℕ). deserialize false k p) (sym (length-element_bytes w xs))
            ∙ deserialize-Reads (element_bytes w xs) p rest r,
        elements-element_bytes w xs h,
      )
      refl

pub get_vector-Reads :
    (null : Bool) (w x : ℕ) (xs : List ℕ)
    → Fits w (x ∷ xs)
    → length (x ∷ xs) < 256 ^ 8
    → Reads (get_vector null w) (x ∷ xs) (vector_bytes w (x ∷ xs))
unfolding get_vector
get_vector-Reads null w x xs h n =
    Reads-bind (get_number 8) _ (length (x ∷ xs)) (x ∷ xs) (le_bytes 8 (length (x ∷ xs)))
      (element_bytes w (x ∷ xs)) (get_number-Reads 8 (length (x ∷ xs)) n)
      (element_block null w (x ∷ xs) h)

pub put_array-Writes :
    (w : ℕ) (xs : List ℕ) (p : Packet)
    → p.bytes_written ≤ length p.bytes
    → Writes (put_array w xs p) p (vector_bytes w xs)
unfolding put_array
put_array-Writes w xs p h =
    Writes-bind (put_number 8 (length xs) p) (serialize (some (element_bytes w xs))) p
      (le_bytes 8 (length xs)) (element_bytes w xs) (put_number-Writes 8 (length xs) p h)
      (serialize-Writes (element_bytes w xs))

take_prefix : (n : ℕ) (xs ys : List ℕ) → n ≤ length xs → take n (xs ++ ys) ≡ take n xs
take_prefix zero xs ys h = refl
take_prefix (suc n) [] ys h = absurd (omega arith)
take_prefix (suc n) (x ∷ xs) ys h = ap (◌∷◌ x) (take_prefix n xs ys (omega arith))

deserialize_prefix :
    (n : ℕ) (p : Packet) (bs rest : List ℕ)
    → Ready p (bs ++ rest)
    → n ≤ length bs
    → deserialize false n p ≡ ok (take n bs, advance p n)
unfolding deserialize
deserialize_prefix n p bs rest r h =
    rw
      (
        le→ltb (length p.bytes) (p.bytes_read + n) (omega (arith, Ready-length p bs rest r)),
        r.unread,
        take_prefix n bs rest h,
      )
      refl

-- What the array reader makes of an array that was written: it takes one byte for each element, and
-- lays these over the old elements.
pub get_array-written :
    (w : ℕ) (old xs rest : List ℕ) (p : Packet)
    → length old ≡ length xs
    → length xs < 256 ^ 8
    → Ready p (vector_bytes (suc w) xs ++ rest)
    → get_array (suc w) old p
      ≡ ok (
        elements
            (suc w)
            (length old)
            (poke (element_bytes (suc w) old) (take (length xs) (element_bytes (suc w) xs))),
        advance p (8 + length xs),
      )
unfolding get_array
get_array-written w old xs rest p same n r =
    rw
      (
        get_number-Reads 8 (length xs) n p (element_bytes (suc w) xs ++ rest) r',
        le→ltb (length old) (length xs) (omega arith),
        deserialize_prefix (length xs) (advance p 8) (element_bytes (suc w) xs) rest
            (Ready-advance p (le_bytes 8 (length xs)) (element_bytes (suc w) xs ++ rest) r')
            (omega (arith, length-element_bytes (suc w) xs)),
      )
      (ap
        (λ (k : ℕ). ok (
          elements (suc w) (length old)
              (poke (element_bytes (suc w) old) (take (length xs) (element_bytes (suc w) xs))),
          record p { bytes_read = k; bits_read = 8 },
        ))
        (omega arith))
  where
    r' : Ready p (le_bytes 8 (length xs) ++ (element_bytes (suc w) xs ++ rest))
    r' = record {
      inside = r.inside;
      aligned = r.aligned;
      unread = r.unread ∙ append_assoc (le_bytes 8 (length xs)) (element_bytes (suc w) xs) rest;
    }

element_bytes-byte : (xs : List ℕ) → Fits 1 xs → element_bytes 1 xs ≡ xs
element_bytes-byte [] h = refl
element_bytes-byte (x ∷ xs) h =
    ap₂ (λ (b : ℕ) (bs : List ℕ). b ∷ bs) (omega arith) (element_bytes-byte xs h.1)

-- An array of one-byte elements comes back as it was written, into an array of the same size.
pub get_array-bytes :
    (old xs : List ℕ)
    → length old ≡ length xs
    → length xs < 256 ^ 8
    → Fits 1 xs
    → Reads (get_array 1 old) xs (vector_bytes 1 xs)
get_array-bytes old xs same n h p rest r =
    get_array-written 0 old xs rest p same n r
    ∙ ap₂ (λ (v : List ℕ) (k : ℕ). ok (v, advance p k)) value
        (omega (
          arith,
          length-append (le_bytes 8 (length xs)) (element_bytes 1 xs),
          length-element_bytes 1 xs,
        ))
  where
    block : List ℕ
    block = element_bytes 1 xs

    whole : take (length xs) block ≡ block
    whole = ap (λ (k : ℕ). take k block) (omega (arith, length-element_bytes 1 xs)) ∙ take_all block

    over : poke (element_bytes 1 old) block ≡ block
    over =
        sym (take_all (poke (element_bytes 1 old) block))
        ∙ ap (λ (k : ℕ). take k (poke (element_bytes 1 old) block))
            (omega (
              arith,
              length-poke (element_bytes 1 old) block,
              length-element_bytes 1 old,
              length-element_bytes 1 xs,
            ))
        ∙ take-poke (element_bytes 1 old) block
            (omega (arith, length-element_bytes 1 old, length-element_bytes 1 xs))

    value : elements 1 (length old) (poke (element_bytes 1 old) (take (length xs) block)) ≡ xs
    value =
        ap (λ (t : List ℕ). elements 1 (length old) (poke (element_bytes 1 old) t)) whole
        ∙ ap₂ (λ (k : ℕ) (t : List ℕ). elements 1 k t) same over
        ∙ elements-element_bytes 1 xs h

-- After reading an array that was written, into one of the same size, the reader stands inside the array's own bytes: all but one byte
-- of each element are still unread.
pub get_array-misaligned :
    (w : ℕ) (old xs rest : List ℕ) (p : Packet)
    → length old ≡ length xs
    → length xs < 256 ^ 8
    → Ready p (vector_bytes (suc w) xs ++ rest)
    → (v : List ℕ) × (q : Packet) × (get_array (suc w) old p ≡ ok (v, q))
      × (length q.bytes ≡ q.bytes_read + w * length xs + length rest)
get_array-misaligned w old xs rest p same n r = (
  _,
  _,
  get_array-written w old xs rest p same n r,
  omega (
    arith,
    Ready-length p (vector_bytes (suc w) xs) rest r,
    length-append (le_bytes 8 (length xs)) (element_bytes (suc w) xs),
    length-element_bytes (suc w) xs,
  ),
)
