-- ===== src/Packet/Bits/Copies.antt =====
-- What a copy to the buffer and a copy out of it do to every single bit.
use enki_net.Common.{
  ℕ, zero, suc, ◌+◌, ◌-◌, ◌/◌, ◌%◌, ◌^◌, ◌≤◌, ◌<◌, ◌≡◌, ◌≢◌, ◌⊎◌, refl, sym, ap, ◌∙◌, List, [], ◌∷◌,
  Bool, true, false, length, get_or, set, length-set, ==_ne, ==_refl, arith, ℕ_discrete, Bool-cases,
  inl, inr,
}
use enki_net.Common.Bits.{bit, bit-or_pow, bit-clear_pow, bit_test, bit-lt, or_pow-lt, and-lt}
use enki_net.Packet.Bits.{test_bit, put_bit}
use enki_net.Packet.Bits.Reference.{buffer_bit, set_buffer_bit, copy_in, copy_out}

-- All bytes of a buffer are below 256.
abbrev pub IsBytes : List ℕ → Type 0
IsBytes [] = Unit {0}
IsBytes (b ∷ bs) = (b < 2 ^ 8) × IsBytes bs

IsBytes-get_or : (bytes : List ℕ) (i : ℕ) → IsBytes bytes → get_or bytes i 0 < 2 ^ 8
IsBytes-get_or [] i h = omega arith
IsBytes-get_or (b ∷ bs) zero h = h.0
IsBytes-get_or (b ∷ bs) (suc i) h = IsBytes-get_or bs i h.1

IsBytes-set : (bytes : List ℕ) (i b : ℕ) → IsBytes bytes → b < 2 ^ 8 → IsBytes (set bytes i b)
IsBytes-set [] i b h g = tt
IsBytes-set (x ∷ bs) zero b h g = (g, h.1)
IsBytes-set (x ∷ bs) (suc i) b h g = (h.0, IsBytes-set bs i b h.1 g)

get_or-set_self : (bytes : List ℕ) (i b : ℕ) → i < length bytes → get_or (set bytes i b) i 0 ≡ b
get_or-set_self [] i b h = absurd (omega arith)
get_or-set_self (x ∷ bs) zero b h = refl
get_or-set_self (x ∷ bs) (suc i) b h = get_or-set_self bs i b (omega arith)

get_or-set_ne : (bytes : List ℕ) (i j b : ℕ) → i ≢ j → get_or (set bytes i b) j 0 ≡ get_or bytes j 0
get_or-set_ne [] i j b h = refl
get_or-set_ne (x ∷ bs) zero zero b h = absurd (h refl)
get_or-set_ne (x ∷ bs) zero (suc j) b h = refl
get_or-set_ne (x ∷ bs) (suc i) zero b h = refl
get_or-set_ne (x ∷ bs) (suc i) (suc j) b h = get_or-set_ne bs i j b (λ e. h (ap suc e))

put_bit-lt : (w d k : ℕ) (on : Bool) → k < w → d < 2 ^ w → put_bit w d k on < 2 ^ w
put_bit-lt w d k true h g = or_pow-lt w k d h g
put_bit-lt w d k false h g = and-lt w d (2 ^ w - 1 - 2 ^ k) g

test_bit-true : (d k : ℕ) → test_bit d k ≡ true → bit k d ≡ 1
test_bit-true d k h = ground (arith, bit_test k d, bit-lt k d)

test_bit-false : (d k : ℕ) → test_bit d k ≡ false → bit k d ≡ 0
test_bit-false d k h = ground (arith, bit_test k d, bit-lt k d)

-- The digit that is put is the digit that was tested; the other digits stay.
bit-put_bit_self :
    (w d k word src : ℕ)
    → k < w
    → d < 2 ^ w
    → bit k (put_bit w d k (test_bit word src)) ≡ bit src word
bit-put_bit_self w d k word src h g = elim (Bool-cases (test_bit word src)) [
  | inl e ↦ rw (e, bit-or_pow k d k, ==_refl k) (sym (test_bit-true word src e))
  | inr e ↦ rw (e, bit-clear_pow w k d k h g, ==_refl k) (sym (test_bit-false word src e))
]

bit-put_bit_ne :
    (w d k j : ℕ) (on : Bool) → k < w → d < 2 ^ w → j ≢ k → bit j (put_bit w d k on) ≡ bit j d
bit-put_bit_ne w d k j true h g ne = rw (bit-or_pow k d j, ==_ne j k ne)
bit-put_bit_ne w d k j false h g ne = rw (bit-clear_pow w k d j h g, ==_ne j k ne)

module _ (bytes : List ℕ) (valid : IsBytes bytes) (pos : ℕ) (word src : ℕ) where
  abbrev stored : ℕ
  stored = put_bit 8 (get_or bytes (pos / 8) 0) (pos % 8) (test_bit word src)

  IsBytes-set_buffer_bit : IsBytes (set_buffer_bit bytes pos (test_bit word src))
  IsBytes-set_buffer_bit =
      IsBytes-set bytes (pos / 8) _ valid
        (put_bit-lt 8 _ (pos % 8) (test_bit word src) (omega arith) (IsBytes-get_or bytes _ valid))

  buffer_bit-set_self :
      pos / 8 < length bytes
      → buffer_bit (set_buffer_bit bytes pos (test_bit word src)) pos ≡ bit src word
  buffer_bit-set_self h =
      ap (bit (pos % 8)) (get_or-set_self bytes (pos / 8) stored h)
      ∙ bit-put_bit_self 8 (get_or bytes (pos / 8) 0) (pos % 8) word src (omega arith)
          (IsBytes-get_or bytes _ valid)

  buffer_bit-set_ne :
      (q : ℕ)
      → pos / 8 < length bytes
      → q ≢ pos
      → buffer_bit (set_buffer_bit bytes pos (test_bit word src)) q ≡ buffer_bit bytes q
  buffer_bit-set_ne q h ne = elim (ℕ_discrete (q / 8) (pos / 8)) [
    | yes e ↦ rw e (
        ap (bit (q % 8)) (get_or-set_self bytes (pos / 8) stored h)
        ∙ bit-put_bit_ne 8 (get_or bytes (pos / 8) 0) (pos % 8) (q % 8) (test_bit word src)
            (omega arith) (IsBytes-get_or bytes _ valid) (λ d. ne (omega arith)))
    | no d ↦ ap (bit (q % 8)) (get_or-set_ne bytes (pos / 8) (q / 8) stored (λ e. d (sym e)))
  ]

pub copy_in-IsBytes :
    (n word src pos : ℕ) (bytes : List ℕ) → IsBytes bytes → IsBytes (copy_in n word src pos bytes)
unfolding copy_in
copy_in-IsBytes zero word src pos bytes h = h
copy_in-IsBytes (suc n) word src pos bytes h =
    copy_in-IsBytes n word (src + 1) (pos + 1) _ (IsBytes-set_buffer_bit bytes h pos word src)

-- Outside of the bits that are copied the buffer stays.
pub copy_in_outside :
    (n word src pos q : ℕ) (bytes : List ℕ)
    → IsBytes bytes
    → (pos + n + 7) / 8 ≤ length bytes
    → (q < pos) ⊎ (pos + n ≤ q)
    → buffer_bit (copy_in n word src pos bytes) q ≡ buffer_bit bytes q
unfolding copy_in
copy_in_outside zero word src pos q bytes v h o = refl
copy_in_outside (suc n) word src pos q bytes v h o =
    copy_in_outside n word (src + 1) (pos + 1) q _ (IsBytes-set_buffer_bit bytes v pos word src)
      (rw length-set (omega arith)) (further o)
    ∙ buffer_bit-set_ne bytes v pos word src q (omega arith) (λ e. away e o)
  where
    further : (q < pos) ⊎ (pos + suc n ≤ q) → (q < pos + 1) ⊎ (pos + 1 + n ≤ q)
    further (inl l) = inl (omega arith)
    further (inr l) = inr (omega arith)

    away : q ≡ pos → (q < pos) ⊎ (pos + suc n ≤ q) → ⊥
    away e (inl l) = omega arith
    away e (inr l) = omega arith

-- Inside, the buffer has the bits of the word.
pub copy_in_inside :
    (n word src pos k : ℕ) (bytes : List ℕ)
    → IsBytes bytes
    → (pos + n + 7) / 8 ≤ length bytes
    → k < n
    → buffer_bit (copy_in n word src pos bytes) (pos + k) ≡ bit (src + k) word
unfolding copy_in
copy_in_inside zero word src pos k bytes v h l = absurd (omega arith)
copy_in_inside (suc n) word src pos zero bytes v h l =
    let a : pos + 0 ≡ pos = omega arith in
    let b : src + 0 ≡ src = omega arith in
    rw (a, b)
      (copy_in_outside n word (src + 1) (pos + 1) pos _
          (IsBytes-set_buffer_bit bytes v pos word src) (rw length-set (omega arith))
          (inl (omega arith))
        ∙ buffer_bit-set_self bytes v pos word src (omega arith))
copy_in_inside (suc n) word src pos (suc k) bytes v h l =
    let a : pos + suc k ≡ pos + 1 + k = omega arith in
    let b : src + suc k ≡ src + 1 + k = omega arith in
    rw (a, b)
      (copy_in_inside n word (src + 1) (pos + 1) k _ (IsBytes-set_buffer_bit bytes v pos word src)
        (rw length-set (omega arith)) (omega arith))

pub copy_out-lt :
    (n dst pos : ℕ) (bytes : List ℕ) (acc : ℕ)
    → dst + n ≤ 32
    → acc < 2 ^ 32
    → copy_out n dst pos bytes acc < 2 ^ 32
unfolding copy_out
copy_out-lt zero dst pos bytes acc h g = g
copy_out-lt (suc n) dst pos bytes acc h g =
    copy_out-lt n (dst + 1) (pos + 1) bytes _ (omega arith)
      (put_bit-lt 32 acc dst _ (omega arith) g)

pub copy_out_outside :
    (n dst pos j : ℕ) (bytes : List ℕ) (acc : ℕ)
    → dst + n ≤ 32
    → acc < 2 ^ 32
    → (j < dst) ⊎ (dst + n ≤ j)
    → bit j (copy_out n dst pos bytes acc) ≡ bit j acc
unfolding copy_out
copy_out_outside zero dst pos j bytes acc h g o = refl
copy_out_outside (suc n) dst pos j bytes acc h g o =
    copy_out_outside n (dst + 1) (pos + 1) j bytes _ (omega arith)
      (put_bit-lt 32 acc dst _ (omega arith) g) (further o)
    ∙ bit-put_bit_ne 32 acc dst j _ (omega arith) g (λ e. away e o)
  where
    further : (j < dst) ⊎ (dst + suc n ≤ j) → (j < dst + 1) ⊎ (dst + 1 + n ≤ j)
    further (inl l) = inl (omega arith)
    further (inr l) = inr (omega arith)

    away : j ≡ dst → (j < dst) ⊎ (dst + suc n ≤ j) → ⊥
    away e (inl l) = omega arith
    away e (inr l) = omega arith

pub copy_out_inside :
    (n dst pos k : ℕ) (bytes : List ℕ) (acc : ℕ)
    → dst + n ≤ 32
    → acc < 2 ^ 32
    → k < n
    → bit (dst + k) (copy_out n dst pos bytes acc) ≡ buffer_bit bytes (pos + k)
unfolding copy_out
copy_out_inside zero dst pos k bytes acc h g l = absurd (omega arith)
copy_out_inside (suc n) dst pos zero bytes acc h g l =
    let a : pos + 0 ≡ pos = omega arith in
    let b : dst + 0 ≡ dst = omega arith in
    rw (a, b)
      (copy_out_outside n (dst + 1) (pos + 1) dst bytes _ (omega arith)
          (put_bit-lt 32 acc dst _ (omega arith) g) (inl (omega arith))
        ∙ bit-put_bit_self 32 acc dst (get_or bytes (pos / 8) 0) (pos % 8) (omega arith) g)
copy_out_inside (suc n) dst pos (suc k) bytes acc h g l =
    let a : pos + suc k ≡ pos + 1 + k = omega arith in
    let b : dst + suc k ≡ dst + 1 + k = omega arith in
    rw (a, b)
      (copy_out_inside n (dst + 1) (pos + 1) k bytes _ (omega arith)
        (put_bit-lt 32 acc dst _ (omega arith) g) (omega arith))
