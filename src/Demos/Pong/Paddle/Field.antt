-- ===== src/Demos/Pong/Paddle/Field.antt =====
-- A paddle stays on the field.
use enki_net.Common.{
  ℕ, ◌<◌, ◌≡◌, Bool, true, false, Option, ltb, if◌then◌else◌, Bool-cases, inl, inr, arith,
}
use enki_net.Entity.{is_owner}
use enki_net.Demos.Scalar.{Scalar}
use enki_net.Demos.Pong.Paddle.{Paddle, Held, clamp, steer, update}

-- Literals of less than 1000 compare as the numbers do.
abbrev pub LiteralsCompare : {F : Type 0} → Scalar F → Type 0
LiteralsCompare ops =
    (n m : ℕ) → n < 1000 → m < 1000 → ops.lt (ops.literal n 1) (ops.literal m 1) ≡ ltb n m

-- A y of the field, from 0 to 360 - 128.
abbrev pub OnField : {F : Type 0} → Scalar F → F → Type 0
OnField ops y = (ops.lt y (ops.literal 0 1) ≡ false) × (ops.lt (ops.literal 232 1) y ≡ false)

module _ {F : Type 0} (ops : Scalar F) (compare : LiteralsCompare ops) where
  clamp-OnField : (y : F) → OnField ops (clamp ops y)
  unfolding clamp
  clamp-OnField y = elim (Bool-cases (ops.lt y (ops.literal 0 1))) [
    | inl above ↦
        rw (above, compare 232 0 (omega arith) (omega arith))
          (compare 0 0 (omega arith) (omega arith), compare 232 0 (omega arith) (omega arith))
    | inr inside ↦ elim (Bool-cases (ops.lt (ops.literal 232 1) y)) [
      | inl below ↦
          rw (inside, below)
            (compare 232 0 (omega arith) (omega arith), compare 232 232 (omega arith) (omega arith))
      | inr on ↦ rw (inside, on) (inside, on)
    ]
  ]

  OnField-if :
      (test : Bool) (p q : Paddle F)
      → test ≡ true
      → OnField ops p.y
      → OnField ops (if test then p else q).y
  OnField-if true p q h on = on
  OnField-if false p q h on = absurd (cc h)

  -- If the literals compare as the numbers do, then after an update of the client's own paddle, with any keys down, for any
  -- time that has passed and wherever it was, its y is neither below 0 nor above 360 - 128.
  pub update-OnField :
      (client : Option ℕ) (rate : ℕ) (keys : Held) (now : ℕ) (dt : F) (p : Paddle F)
      → is_owner client p.info ≡ true
      → OnField ops (update ops client rate keys now dt p).y
  unfolding update
  update-OnField client rate keys now dt p own =
      let q = steer ops client keys dt p in
      OnField-if (is_owner client p.info) (record q { y = clamp ops q.y }) _ own (clamp-OnField q.y)
