-- ===== src/Rpc/Args.antt =====
-- How the arguments of a call travel: RPCManager::fillPacket writes the last one first, and a call
-- `f(p.read<Parameters>()...)` reads them in the order in which its arguments are evaluated.
use enki_net.Common.{ℕ, List, [], ◌∷◌, Bool, true, false, Outcome, ok, ◌>>=◌}
use enki_net.Packet.{Packet}
use enki_net.Packet.Codec.{put_number, get_number}

-- fillPacket, on sizes and values.
unfoldable pub put_args : List (ℕ × ℕ) → Packet → Outcome Packet
put_args [] p = ok p
put_args ((w, x) ∷ args) p = put_args args p >>= put_number w x

unfoldable pub get_args_right : List ℕ → Packet → Outcome (List ℕ × Packet)
get_args_right [] p = ok ([], p)
get_args_right (w ∷ ws) p = do
  (xs, q) ← get_args_right ws p
  (x, r) ← get_number w q
  ok (x ∷ xs, r)

unfoldable pub get_args_left : List ℕ → Packet → Outcome (List ℕ × Packet)
get_args_left [] p = ok ([], p)
get_args_left (w ∷ ws) p = do (x, q) ← get_number w p; (xs, r) ← get_args_left ws q; ok (x ∷ xs, r)

unfoldable pub get_args : Bool → List ℕ → Packet → Outcome (List ℕ × Packet)
unfolding get_args_right get_args_left
get_args true ws p = get_args_right ws p
get_args false ws p = get_args_left ws p
