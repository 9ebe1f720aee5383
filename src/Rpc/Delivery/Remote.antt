-- ===== src/Rpc/Delivery/Remote.antt =====
-- The whole way of an entity call: from the caller through the transport to another program.
use enki_net.Common.{
  ℕ, ◌^◌, ◌<◌, ◌≡◌, refl, ap, ◌∙◌, List, [], ◌∷◌, append-nil, Bool, true, false, none, some, length,
  Outcome, ok, ◌>>=◌, if◌then◌else◌,
}
use enki_net.Packet.{Packet, PacketHeader, of_header, of_data, sent_bytes, type_code, entity_rpc}
use enki_net.Packet.Laws.{Appends}
use enki_net.Packet.Channel.{Carries, Carries-Ready, excess, Arrives, arrives, set_header-Ready}
use enki_net.Entity.{EntityInfo, is_owner}
use enki_net.Entity.Laws.{IsInfo}
use enki_net.Rpc.{RpcManager, EntityRpc, rpc_info}
use enki_net.Rpc.Calls.{
  Client, CallResult, entity_packet, stamp, receive_entity, call_entity, run_call,
}
use enki_net.Rpc.Transport.{sizes, values, ArgsFit}
use enki_net.Rpc.Delivery.{entity_bytes, rpc_header, entity_packet-Writes, receive_entity_lem}

-- What a call does to the caller, and what its packet does in a program whose RPC manager is `m'`,
-- which has the function `r'` under the same type and name.
pub record Delivered {S T : Type 0} (m : RpcManager S) (r : EntityRpc S) (client : Client) (now : ℕ)
    (name : List ℕ) (info : EntityInfo) (args : List (ℕ × ℕ)) (st : S) (m' : RpcManager T)
    (r' : EntityRpc T) (e : ℕ) (st' : T) : Type 0 where
  pub packet : Packet
  pub result :
      let todo = rpc_info r.rpctype (is_owner (some client.id) info) in
      call_entity true m (some client) now name info args st
      ≡ ok (record {
        state = if todo.0 then r.run info.id (values args) st else st;
        logged = none;
        sent = if todo.1 then packet ∷ [] else [];
      })
  pub arrival : Packet
  pub transported : (sent_bytes packet >>= of_data) ≡ ok arrival
  pub stamped : arrival.header ≡ record { type = type_code entity_rpc; time_sent = now }
  pub runs : receive_entity true m' arrival e st' ≡ ok (r'.run e (values args) st', none)

module _ {S : Type 0} (m : RpcManager S) (r : EntityRpc S) (now : ℕ) (info : EntityInfo)
    (args : List (ℕ × ℕ)) (name : List ℕ) (p : Packet)
    (a : Carries rpc_header (entity_bytes info name args) p) where
  abbrev outcome : Bool → Bool → S → Outcome (CallResult S)
  outcome here away st = ok (record {
    state = if here then r.run info.id (values args) st else st;
    logged = none;
    sent = if away then stamp now p ∷ [] else [];
  })

  module _ (fits : ArgsFit args) (expects : r.params ≡ sizes args) (valid : IsInfo info)
      (short : length name < 256 ^ 8) (known : m.entity_rpcs info.type name ≡ some r) where
    runs_plain :
        (st : S) → receive_entity true m p info.id st ≡ ok (r.run info.id (values args) st, none)
    runs_plain st =
        receive_entity_lem m args fits r expects info name p (excess p) info.id st valid short known
          (Carries-Ready rpc_header _ p a)

    runs_stamped :
        (st : S)
        → receive_entity true m (stamp now p) info.id st ≡ ok (r.run info.id (values args) st, none)
    runs_stamped st =
        receive_entity_lem m args fits r expects info name (stamp now p) (excess p) info.id st valid
          short known
          (set_header-Ready _ _ p (unfold of_header in a.same_reader)
            (Carries-Ready rpc_header _ p a))

    run_call_lem :
        (here away : Bool) (st : S)
        → run_call true m now info (here, away) p st ≡ outcome here away st
    unfolding run_call
    run_call_lem true true st = rw (runs_stamped st)
    run_call_lem true false st = rw (runs_plain st)
    run_call_lem false true st = refl
    run_call_lem false false st = refl

-- A connected client that calls a registered function of an entity, on arguments that fit the
-- parameters, runs it on the spot, or sends it, or both, as RPCInfo says, and nothing is logged. The
-- packet of the call, handed to the transport, arrives with the time of sending, and makes a receiver
-- that has a function of the same parameters under the type and name run that on the same arguments.
-- Both programs evaluate the arguments of a call from the right.
pub call_entity-Delivered :
    {S T : Type 0} (m : RpcManager S) (r : EntityRpc S) (client : Client) (now : ℕ) (name : List ℕ)
    (info : EntityInfo) (args : List (ℕ × ℕ)) (st : S) (m' : RpcManager T) (r' : EntityRpc T)
    (e : ℕ) (st' : T)
    → client.connected ≡ true
    → m.entity_rpcs info.type name ≡ some r
    → r.params ≡ sizes args
    → m'.entity_rpcs info.type name ≡ some r'
    → r'.params ≡ sizes args
    → ArgsFit args
    → IsInfo info
    → length name < 256 ^ 8
    → now < 2 ^ 32
    → Delivered m r client now name info args st m' r' e st'
unfolding call_entity
call_entity-Delivered m r client now name info args st m' r' e st' on known expects known' expects'
      fits valid short time =
    record {
      packet = stamp now p;
      result =
          rw (on, known, put)
            (run_call_lem m r now info args name p a fits expects valid short known
              (rpc_info r.rpctype (is_owner (some client.id) info)).0
              (rpc_info r.rpctype (is_owner (some client.id) info)).1 st);
      arrival = c.packet;
      transported = rw c.sent c.built;
      stamped = c.same_header ∙ ap (λ (t : ℕ). record { type = t; time_sent = now }) typed;
      runs =
          receive_entity_lem m' args fits r' expects' info name c.packet [] e st' valid short known'
            (rw append-nil c.ready);
    }
  where
    written_packet :
        (q : Packet) × (entity_packet info name args ≡ ok q)
        × Appends (of_header rpc_header) (entity_bytes info name args) q
    written_packet = entity_packet-Writes info name args

    p : Packet
    p = written_packet.0

    put : entity_packet info name args ≡ ok p
    put = written_packet.1

    a : Carries rpc_header (entity_bytes info name args) p
    a = written_packet.2

    typed : p.header.type ≡ type_code entity_rpc
    typed = unfold of_header in ap (λ (h : PacketHeader). h.type) a.same_header

    c : Arrives p (record { type = p.header.type; time_sent = now }) (entity_bytes info name args)
    c = arrives rpc_header (entity_bytes info name args) p _ a time
