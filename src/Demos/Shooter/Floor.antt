-- ===== src/Demos/Shooter/Floor.antt =====
-- demos/Shooter/src/Floor.cpp and Wall.cpp, which are the same: a tile, of which all that counts is where it is.
use enki_net.Common.{
  ℕ, ◌+◌, ◌≤◌, ◌≡◌, refl, false, List, [], ◌∷◌, ◌++◌, length, ltb, le→ltb, if◌then◌else◌, Outcome,
  ok, ◌>>=◌, arith,
}
use enki_net.Packet.{Packet, le_bytes, can_deserialize}
use enki_net.Packet.Laws.{Writes, Writes-bind, Ready, Ready-advance, Ready-length, advance}
use enki_net.Demos.Scalar.{Scalar, put_float, get_float}
use enki_net.Demos.Scalar.Packets.{IsScalar, put_float-Writes, get_float-Reads}

pub record Floor (F : Type 0) : Type 0 where
  pub x : F
  pub y : F

module _ {F : Type 0} (ops : Scalar F) where
  unfoldable pub serialize_on_connection : Floor F → Packet → Outcome Packet
  serialize_on_connection t p = put_float ops t.x p >>= put_float ops t.y

  unfoldable pub deserialize_on_connection : Packet → Floor F → Outcome (Floor F)
  deserialize_on_connection p t = do
    (x, p1) ← get_float ops p
    (y, p2) ← get_float ops p1
    ok (record { x = x; y = y })

  unfoldable pub on_spawn : Packet → Floor F → Outcome (Floor F)
  unfolding deserialize_on_connection
  on_spawn p t =
      let read = deserialize_on_connection p t in
      if can_deserialize (4 ∷ 4 ∷ []) p then read else ok t

  abbrev pub place_bytes : Floor F → List ℕ
  place_bytes t = le_bytes 4 (ops.bits t.x) ++ le_bytes 4 (ops.bits t.y)

  -- A floor or a wall that is spawned from what serializeOnConnection appends for one, and one that is told it when a client
  -- joins, are where that one is.
  pub on_spawn-serialized :
      (t old : Floor F) (q a : Packet) (rest : List ℕ)
      → IsScalar ops
      → q.bytes_written ≤ length q.bytes
      → Ready a (place_bytes t ++ rest)
      → Writes (serialize_on_connection t q) q (place_bytes t)
        × (deserialize_on_connection a old ≡ ok t)
        × (on_spawn a old ≡ ok t)
  unfolding serialize_on_connection deserialize_on_connection on_spawn can_deserialize
  on_spawn-serialized t old q a rest scalar room ready =
      let tail = le_bytes 4 (ops.bits t.y) ++ rest in
      let first = get_float-Reads ops (ops.bits t.x) (scalar.fits t.x) a tail ready in
      let second =
        get_float-Reads ops (ops.bits t.y) (scalar.fits t.y) (advance a 4) rest
          (Ready-advance a (le_bytes 4 (ops.bits t.x)) tail ready) in
      let enough : ltb (length a.bytes) (a.bytes_read + 8) ≡ false =
        le→ltb (length a.bytes) (a.bytes_read + 8)
          (omega (arith, Ready-length a (place_bytes t) rest ready)) in
      (
        Writes-bind _ _ q (le_bytes 4 (ops.bits t.x)) _ (put_float-Writes ops t.x q room)
            (put_float-Writes ops t.y),
        rw (first, second, scalar.of_bits-bits t.x, scalar.of_bits-bits t.y) refl,
        rw (enough, first, second, scalar.of_bits-bits t.x, scalar.of_bits-bits t.y) refl,
      )
