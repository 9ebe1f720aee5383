-- ===== src/Demos/Pong/Score/Joining.antt =====
-- A score that is shown to a client that joins.
use enki_net.Common.{ℕ, ◌^◌, ◌≤◌, ◌<◌, ◌≡◌, refl, List, ◌++◌, length, ok}
use enki_net.Packet.{Packet, le_bytes}
use enki_net.Packet.Laws.{Writes, Writes-bind, Ready, Ready-advance, advance}
use enki_net.Packet.RoundTrip.{put_number-Writes, get_number-Reads}
use enki_net.Demos.Pong.Score.{Score, serialize_on_connection, deserialize_on_connection}

abbrev pub points_bytes : Score → List ℕ
points_bytes s = le_bytes 4 s.score1_points ++ le_bytes 4 s.score2_points

-- Points of 32 bits that the server writes to any packet with room are, on a client whose packet has the bytes that were written
-- unread, the points of its score, whatever they were.
pub deserialize_on_connection-serialized :
    (s old : Score) (q a : Packet) (rest : List ℕ)
    → s.score1_points < 2 ^ 32
    → s.score2_points < 2 ^ 32
    → q.bytes_written ≤ length q.bytes
    → Ready a (points_bytes s ++ rest)
    → Writes (serialize_on_connection s q) q (points_bytes s)
      × (deserialize_on_connection a old ≡ ok s)
unfolding serialize_on_connection deserialize_on_connection
deserialize_on_connection-serialized s old q a rest fits1 fits2 room ready =
    let tail = le_bytes 4 s.score2_points ++ rest in
    (
      Writes-bind _ _ q (le_bytes 4 s.score1_points) _ (put_number-Writes 4 s.score1_points q room)
          (put_number-Writes 4 s.score2_points),
      rw
          (
            get_number-Reads 4 s.score1_points fits1 a tail ready,
            get_number-Reads 4 s.score2_points fits2 (advance a 4) rest
                (Ready-advance a (le_bytes 4 s.score1_points) tail ready),
          )
          refl,
    )
