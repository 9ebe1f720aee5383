-- ===== src/Packet/Bits/Reference.antt =====
-- A bit string view of a buffer: the writer and the reader that move one bit at a time.
use Prim.Native.Nat.{max}
use enki_net.Common.{
  ℕ, zero, suc, ◌+◌, ◌-◌, ◌*◌, ◌/◌, ◌%◌, ◌≤◌, ◌<◌, ◌≡◌, refl, ◌∙◌, List, Bool, length, get_or, set,
  length-set, lt→leb, ok, arith,
}
use enki_net.Common.Bits.{bit}
use enki_net.Packet.Bits.{test_bit, put_bit, write_chunk, read_chunk}

-- Bit `pos` of a buffer, byte by byte from the lowest bit up.
abbrev pub buffer_bit : List ℕ → ℕ → ℕ
buffer_bit bytes pos = bit (pos % 8) (get_or bytes (pos / 8) 0)

abbrev pub set_buffer_bit : List ℕ → ℕ → Bool → List ℕ
set_buffer_bit bytes pos on =
    set bytes (pos / 8) (put_bit 8 (get_or bytes (pos / 8) 0) (pos % 8) on)

-- `n` bits of `word` from bit `src` up, to the buffer from bit `pos` up.
unfoldable pub copy_in : ℕ → ℕ → ℕ → ℕ → List ℕ → List ℕ
copy_in zero word src pos bytes = bytes
copy_in (suc n) word src pos bytes =
    copy_in n word (src + 1) (pos + 1) (set_buffer_bit bytes pos (test_bit word src))

-- `n` bits of the buffer from bit `pos` up, to `acc` from bit `dst` up.
unfoldable pub copy_out : ℕ → ℕ → ℕ → List ℕ → ℕ → ℕ
copy_out zero dst pos bytes acc = acc
copy_out (suc n) dst pos bytes acc =
    copy_out n (dst + 1) (pos + 1) bytes
      (put_bit 32 acc dst (test_bit (get_or bytes (pos / 8) 0) (pos % 8)))

pub length-copy_in :
    (n word src pos : ℕ) (bytes : List ℕ) → length (copy_in n word src pos bytes) ≡ length bytes
unfolding copy_in
length-copy_in zero word src pos bytes = refl
length-copy_in (suc n) word src pos bytes =
    length-copy_in n word (src + 1) (pos + 1) (set_buffer_bit bytes pos (test_bit word src))
    ∙ length-set bytes (pos / 8) _

pub copy_in-add :
    (m n word src pos : ℕ) (bytes : List ℕ)
    → copy_in n word (src + m) (pos + m) (copy_in m word src pos bytes)
      ≡ copy_in (m + n) word src pos bytes
unfolding copy_in
copy_in-add zero n word src pos bytes =
    let e : src + 0 ≡ src = omega arith in
    let f : pos + 0 ≡ pos = omega arith in let g : 0 + n ≡ n = omega arith in rw (e, f, g)
copy_in-add (suc m) n word src pos bytes =
    let e : src + suc m ≡ src + 1 + m = omega arith in
    let f : pos + suc m ≡ pos + 1 + m = omega arith in
    let g : suc m + n ≡ suc (m + n) = omega arith in
    rw (e, f, g) (copy_in-add m n word (src + 1) (pos + 1) _)

pub copy_out-add :
    (m n dst pos : ℕ) (bytes : List ℕ) (acc : ℕ)
    → copy_out n (dst + m) (pos + m) bytes (copy_out m dst pos bytes acc)
      ≡ copy_out (m + n) dst pos bytes acc
unfolding copy_out
copy_out-add zero n dst pos bytes acc =
    let e : dst + 0 ≡ dst = omega arith in
    let f : pos + 0 ≡ pos = omega arith in let g : 0 + n ≡ n = omega arith in rw (e, f, g)
copy_out-add (suc m) n dst pos bytes acc =
    let e : dst + suc m ≡ dst + 1 + m = omega arith in
    let f : pos + suc m ≡ pos + 1 + m = omega arith in
    let g : suc m + n ≡ suc (m + n) = omega arith in
    rw (e, f, g) (copy_out-add m n (dst + 1) (pos + 1) bytes _)

-- A run of the writer's inner loop is a copy.
pub write_chunk-copy_in :
    (word offset rounds i extra low index : ℕ) (bytes : List ℕ)
    → i + rounds + low ≤ 8
    → i + rounds + offset + extra ≤ 32
    → index < length bytes
    → write_chunk word offset rounds i extra low index bytes
      ≡ ok (copy_in rounds word (i + offset + extra) (index * 8 + i + low) bytes)
unfolding write_chunk copy_in
write_chunk-copy_in word offset zero i extra low index bytes h g l = refl
write_chunk-copy_in word offset (suc rounds) i extra low index bytes h g l =
    let e : (index * 8 + i + low) / 8 ≡ index = omega arith in
    let f : (index * 8 + i + low) % 8 ≡ i + low = omega arith in
    let a : i + offset + extra + 1 ≡ i + 1 + offset + extra = omega arith in
    let b : index * 8 + i + low + 1 ≡ index * 8 + (i + 1) + low = omega arith in
    rw (lt→leb 32 (i + offset + extra) (omega arith), lt→leb (length bytes) index l, e, f, a, b)
      (write_chunk-copy_in word offset rounds (i + 1) extra low index _ (omega arith) (omega arith)
        (rw length-set l))

-- A run of the reader's inner loop is a copy.
pub read_chunk-copy_out :
    (offset rounds i extra low index : ℕ) (bytes : List ℕ) (acc : ℕ)
    → i + rounds + low ≤ 8
    → i + rounds + offset + extra ≤ 32
    → index < length bytes
    → read_chunk offset rounds i extra low index bytes acc
      ≡ ok (copy_out rounds (i + offset + extra) (index * 8 + (low + i)) bytes acc)
unfolding read_chunk copy_out
read_chunk-copy_out offset zero i extra low index bytes acc h g l = refl
read_chunk-copy_out offset (suc rounds) i extra low index bytes acc h g l =
    let e : (index * 8 + (low + i)) / 8 ≡ index = omega arith in
    let f : (index * 8 + (low + i)) % 8 ≡ low + i = omega arith in
    let a : i + offset + extra + 1 ≡ i + 1 + offset + extra = omega arith in
    let b : index * 8 + (low + i) + 1 ≡ index * 8 + (low + (i + 1)) = omega arith in
    rw (lt→leb 32 (i + offset + extra) (omega arith), lt→leb (length bytes) index l, e, f, a, b)
      (read_chunk-copy_out offset rounds (i + 1) extra low index bytes _ (omega arith) (omega arith)
        l)

-- How many bits a call for `n` bits moves: a byte that is written in part is always filled.
abbrev pub span : ℕ → ℕ → ℕ
span low zero = 0
span zero (suc n) = suc n
span (suc low) (suc n) = max (8 - suc low) (suc n)
