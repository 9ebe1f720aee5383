-- ===== src/Rpc/Delivery.antt =====
-- A call runs the registered function on the arguments that were given, here and where its packet
-- arrives. The callee evaluates its arguments from the right.
pub mod Remote
use enki_net.Common.{
  ℕ, zero, suc, ◌+◌, ◌^◌, ◌≤◌, ◌<◌, ◌≡◌, refl, sym, ap, ◌∙◌, List, [], ◌∷◌, ◌++◌, append-nil,
  append_assoc, Bool, true, false, Option, none, some, length, length-append, leb, lt→leb, Outcome,
  ok, ◌>>=◌, arith, if◌then◌else◌, not,
}
use enki_net.Packet.{
  Packet, PacketHeader, le_bytes, of_header, empty, default_header, set_header, of_data, sent_bytes,
  type_code, entity_rpc,
}
use enki_net.Packet.Codec.{put_string, get_string}
use enki_net.Packet.Laws.{Writes, Ready, Ready-length, Ready-advance, advance, Writes-bind}
use enki_net.Packet.RoundTrip.{put_string-Writes, get_string-Reads, string_bytes, length-le_bytes}
use enki_net.Packet.Channel.{Carries, Carries-Ready, excess, Arrives, arrives, set_header-Ready}
use enki_net.Entity.{EntityInfo, put_info, get_info, is_owner}
use enki_net.Entity.Laws.{IsInfo, info_bytes, put_info-Writes, get_info-Reads}
use enki_net.Rpc.{
  RpcManager, GlobalRpc, EntityRpc, rpc_info, caught, wrap_global, wrap_entity, receive_global,
}
use enki_net.Rpc.Args.{put_args, get_args}
use enki_net.Rpc.Calls.{
  Client, CallResult, global_packet, entity_packet, stamp, receive_entity, call_global, call_entity,
}
use enki_net.Rpc.Transport.{sizes, values, args_bytes, ArgsFit, put_args-Writes, get_args-Reads}

abbrev pub global_bytes : List ℕ → List (ℕ × ℕ) → List ℕ
global_bytes name args = string_bytes name ++ args_bytes args

abbrev pub entity_bytes : EntityInfo → List ℕ → List (ℕ × ℕ) → List ℕ
entity_bytes info name args = (info_bytes info ++ string_bytes name) ++ args_bytes args

abbrev pub rpc_header : PacketHeader
rpc_header = record { type = type_code entity_rpc; time_sent = 0 }

pub entity_packet-Writes :
    (info : EntityInfo) (name : List ℕ) (args : List (ℕ × ℕ))
    → Writes (entity_packet info name args) (of_header rpc_header) (entity_bytes info name args)
unfolding entity_packet of_header
entity_packet-Writes info name args =
    Writes-bind (put_info info (of_header rpc_header) >>= put_string name) (put_args args)
      (of_header rpc_header) (info_bytes info ++ string_bytes name) (args_bytes args)
      (Writes-bind (put_info info (of_header rpc_header)) (put_string name) (of_header rpc_header)
        (info_bytes info) (string_bytes name)
        (put_info-Writes info (of_header rpc_header) (omega arith)) (put_string-Writes name))
      (put_args-Writes args)

module _ {S : Type 0} (m : RpcManager S) (args : List (ℕ × ℕ)) (fits : ArgsFit args) where
  module _ (r : EntityRpc S) (expects : r.params ≡ sizes args) where
    wrap_entity_lem :
        (p : Packet) (rest : List ℕ) (e : ℕ) (st : S)
        → Ready p (args_bytes args ++ rest)
        → wrap_entity true r p e st ≡ ok (r.run e (values args) st)
    unfolding wrap_entity
    wrap_entity_lem p rest e st ready = rw (expects, get_args-Reads args fits p rest ready) refl

    -- Receiving the packet of a call runs the function that is registered here under the name.
    pub receive_entity_lem :
        (info : EntityInfo) (name : List ℕ) (p : Packet) (rest : List ℕ) (e : ℕ) (st : S)
        → IsInfo info
        → length name < 256 ^ 8
        → m.entity_rpcs info.type name ≡ some r
        → Ready p (entity_bytes info name args ++ rest)
        → receive_entity true m p e st ≡ ok (r.run e (values args) st, none)
    unfolding receive_entity
    receive_entity_lem info name p rest e st valid short known ready =
        rw
          (
            lt→leb (length p.bytes) p.bytes_read (omega (arith, some_bytes)),
            get_info-Reads info valid p (string_bytes name ++ (args_bytes args ++ rest)) at_info,
            get_string-Reads name short p1 (args_bytes args ++ rest) at_name,
            known,
            wrap_entity_lem p2 rest e st at_args,
          )
          refl
      where
        p1 : Packet
        p1 = advance p (length (info_bytes info))

        p2 : Packet
        p2 = advance p1 (length (string_bytes name))

        at_info : Ready p (info_bytes info ++ (string_bytes name ++ (args_bytes args ++ rest)))
        at_info = record {
          inside = ready.inside;
          aligned = ready.aligned;
          unread =
              ready.unread
              ∙ append_assoc (info_bytes info ++ string_bytes name) (args_bytes args) rest
              ∙ append_assoc (info_bytes info) (string_bytes name) (args_bytes args ++ rest);
        }

        at_name : Ready p1 (string_bytes name ++ (args_bytes args ++ rest))
        at_name =
            Ready-advance p (info_bytes info) (string_bytes name ++ (args_bytes args ++ rest))
              at_info

        at_args : Ready p2 (args_bytes args ++ rest)
        at_args = Ready-advance p1 (string_bytes name) (args_bytes args ++ rest) at_name

        some_bytes : p.bytes_read + 1 ≤ length p.bytes
        some_bytes = omega (
          arith,
          Ready-length p (info_bytes info) (string_bytes name ++ (args_bytes args ++ rest)) at_info,
        )
