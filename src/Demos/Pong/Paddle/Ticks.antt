-- ===== src/Demos/Pong/Paddle/Ticks.antt =====
-- What a network tick tells of a paddle.
use enki_net.Common.{ℕ, ◌≤◌, ◌≡◌, refl, List, ◌++◌, length, if◌then◌else◌, ok}
use enki_net.Packet.{Packet, le_bytes}
use enki_net.Packet.Laws.{Writes, Writes-bind, Ready, Ready-advance, advance}
use enki_net.Timer.{restart}
use enki_net.Demos.Scalar.{Scalar}
use enki_net.Demos.Scalar.Packets.{IsScalar, put_float-Writes, get_float-Reads}
use enki_net.Demos.Pong.Paddle.{Paddle, serialize_on_tick, deserialize_on_tick}

module _ {F : Type 0} (ops : Scalar F) where
  abbrev pub tick_bytes : Paddle F → List ℕ
  tick_bytes p = le_bytes 4 (ops.bits p.x) ++ le_bytes 4 (ops.bits p.y)

  -- Where a paddle is shown, and where the network has it: with interpolation on it is the ghost that moves.
  abbrev pub told : ℕ → Paddle F → Paddle F → Paddle F
  told now p old =
      let heard = record old { last_interpolation_y = old.y; latest_network_y = p.y } in
      if old.interpolation_enabled
      then record heard { latest_x = p.x; latest_y = p.y; interpolation_timer = restart now }
      else record heard { x = p.x; y = p.y }

  -- The owner's serializeOnTick appends eight bytes to any packet with room, and a client whose packet has these bytes unread
  -- takes the owner's position for that of its own paddle, or of the ghost where it interpolates, without any loss, and
  -- keeps where the paddle was for the interpolation.
  pub deserialize_on_tick-told :
      (p old : Paddle F) (now : ℕ) (q a : Packet) (rest : List ℕ)
      → IsScalar ops
      → q.bytes_written ≤ length q.bytes
      → Ready a (tick_bytes p ++ rest)
      → Writes (serialize_on_tick ops p q) q (tick_bytes p)
        × (deserialize_on_tick ops now a old ≡ ok (told now p old))
  unfolding serialize_on_tick deserialize_on_tick
  deserialize_on_tick-told p old now q a rest scalar room ready =
      let tail = le_bytes 4 (ops.bits p.y) ++ rest in
      let first = get_float-Reads ops (ops.bits p.x) (scalar.fits p.x) a tail ready in
      let second =
        get_float-Reads ops (ops.bits p.y) (scalar.fits p.y) (advance a 4) rest
          (Ready-advance a (le_bytes 4 (ops.bits p.x)) tail ready) in
      (
        Writes-bind _ _ q (le_bytes 4 (ops.bits p.x)) _ (put_float-Writes ops p.x q room)
            (put_float-Writes ops p.y),
        rw (first, second, scalar.of_bits-bits p.x, scalar.of_bits-bits p.y) refl,
      )
