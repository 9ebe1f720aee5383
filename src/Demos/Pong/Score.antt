-- ===== src/Demos/Pong/Score.antt =====
-- demos/Pong/src/Score.cpp: the points of the two players, each an int. `++` on the greatest int is undefined.
pub mod Joining
use enki_net.Common.{ℕ, ◌+◌, ◌-◌, ◌%◌, ◌^◌, ◌==◌, if◌then◌else◌, Outcome, ok, fault, ◌>>=◌}
use enki_net.Packet.{Packet}
use enki_net.Packet.Codec.{put_number, get_number}

pub record Score : Type 0 where
  pub score1_points : ℕ
  pub score2_points : ℕ

abbrev pub new_score : Score
new_score = record { score1_points = 0; score2_points = 0 }

unfoldable pub increased : ℕ → Outcome ℕ
increased n = if n == 2 ^ 31 - 1 then fault else ok ((n + 1) % 2 ^ 32)

unfoldable pub increase_score_1 : Score → Outcome Score
unfolding increased
increase_score_1 s = increased s.score1_points >>= λ n. ok (record s { score1_points = n })

unfoldable pub increase_score_2 : Score → Outcome Score
unfolding increased
increase_score_2 s = increased s.score2_points >>= λ n. ok (record s { score2_points = n })

unfoldable pub serialize_on_connection : Score → Packet → Outcome Packet
serialize_on_connection s p = put_number 4 s.score1_points p >>= put_number 4 s.score2_points

unfoldable pub deserialize_on_connection : Packet → Score → Outcome Score
deserialize_on_connection p s = do
  (n, p1) ← get_number 4 p
  (m, p2) ← get_number 4 p1
  ok (record { score1_points = n; score2_points = m })
