-- ===== src/Tests/Calls.antt =====
-- Entities and remote procedure calls at concrete inputs: a program whose state is a number has an
-- entity of the type "e", whose function "f" adds its argument.
use mathlib.Core.List.{reverse}
use enki_net.Common.{ℕ, ◌+◌, ◌≡◌, refl, List, [], ◌∷◌, none, some, true, false, ===_refl, ok, arith}
use enki_net.Packet.{PacketHeader, default_header}
use enki_net.Packet.Transmission.{transmit}
use enki_net.Entity.{EntityInfo}
use enki_net.Entity.Laws.{IsInfo}
use enki_net.Rpc.{RpcManager, EntityRpc, remote_and_local, add_entity}
use enki_net.Rpc.Args.{put_args, get_args}
use enki_net.Rpc.Calls.{Client}
use enki_net.Rpc.Transport.{args_transmission}
use enki_net.Rpc.Delivery.Remote.{Delivered, call_entity-Delivered}

abbrev sending : PacketHeader
sending = record { type = 12; time_sent = 70000 }

abbrev ball : EntityInfo
ball = record { type = 101 ∷ []; name = 98 ∷ []; id = 5; owner_id = 2; parent_id = 0 }

ball-IsInfo : IsInfo ball
ball-IsInfo = record {
  id_fits = omega arith;
  owner_fits = omega arith;
  parent_fits = omega arith;
  type_fits = omega arith;
  name_fits = omega arith;
}

args_transmission_example :
    (transmit (put_args ((4, 7) ∷ (4, 9) ∷ [])) (get_args true (4 ∷ 4 ∷ [])) default_header sending
      ≡ ok (sending, 7 ∷ 9 ∷ []))
    × (transmit
          (put_args ((4, 7) ∷ (4, 9) ∷ []))
          (get_args false (4 ∷ 4 ∷ []))
          default_header
          sending
        ≡ ok (sending, reverse (7 ∷ 9 ∷ [])))
args_transmission_example =
    args_transmission 4 ((4, 7) ∷ (4, 9) ∷ []) default_header sending (refl, (refl, tt))
      (omega arith, (omega arith, tt)) (omega arith)

abbrev add_first : ℕ → List ℕ → ℕ → ℕ
add_first e [] st = st
add_first e (x ∷ xs) st = x + st

abbrev adder : EntityRpc ℕ
adder = record { rpctype = remote_and_local; params = 4 ∷ []; run = add_first }

abbrev manager : RpcManager ℕ
manager =
    add_entity remote_and_local (101 ∷ []) (102 ∷ []) (4 ∷ []) add_first
      (record { global_rpcs = λ n. none; entity_rpcs = λ t n. none })

abbrev caller : Client
caller = record { id = 2; connected = true }

known : manager.entity_rpcs (101 ∷ []) (102 ∷ []) ≡ some adder
unfolding add_entity
known = rw (===_refl (101 ∷ []), ===_refl (102 ∷ []))

call_entity-Delivered_example :
    Delivered manager adder caller 500 (102 ∷ []) ball ((4, 7) ∷ []) 1 manager adder 5 10
call_entity-Delivered_example =
    call_entity-Delivered manager adder caller 500 (102 ∷ []) ball ((4, 7) ∷ []) 1 manager adder 5
      10 refl known refl known refl (omega arith, tt) ball-IsInfo (omega arith) (omega arith)
