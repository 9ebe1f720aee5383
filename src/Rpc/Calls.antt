-- ===== src/Rpc/Calls.antt =====
-- The calls of src/EnkiNet/Networking/RPCManager.hpp that write a packet, and `receive` for entities.
-- The arguments come with their sizes, which the static_assert of `call` ties to the function.
use enki_net.Common.{
  ℕ, List, [], ◌∷◌, Bool, not, Option, none, some, length, leb, if◌then◌else◌, Outcome, ok, ◌>>=◌,
}
use enki_net.Packet.{Packet, of_header, empty, set_header, type_code, entity_rpc}
use enki_net.Packet.Codec.{put_string, get_string}
use enki_net.Entity.{EntityInfo, put_info, get_info, is_owner}
use enki_net.Rpc.{
  RpcManager, ReceiveError, empty_packet, invalid_name, caught, wrap_entity, receive_global,
  rpc_info,
}
use enki_net.Rpc.Args.{put_args}

-- The client of the network manager: its id and isConnected().
pub record Client : Type 0 where
  pub id : ℕ
  pub connected : Bool

pub record CallResult (S : Type 0) : Type 0 where
  pub state : S
  pub logged : Option ReceiveError
  pub sent : List Packet

-- The packet of a global call, and that of an entity call.
unfoldable pub global_packet : List ℕ → List (ℕ × ℕ) → Outcome Packet
global_packet name args = put_string name empty >>= put_args args

unfoldable pub entity_packet : EntityInfo → List ℕ → List (ℕ × ℕ) → Outcome Packet
entity_packet info name args =
    put_info info (of_header (record { type = type_code entity_rpc; time_sent = 0 }))
    >>= put_string name
    >>= put_args args

-- ClientStandard::sendPacket stamps the header of the packet itself.
abbrev pub stamp : ℕ → Packet → Packet
stamp now p = set_header (record { type = p.header.type; time_sent = now }) p

module _ {S : Type 0} (right_to_left : Bool) where
  entity_body : RpcManager S → Packet → ℕ → S → Outcome (S × Option ReceiveError)
  entity_body m p e st =
      if leb (length p.bytes) p.bytes_read
      then ok (st, some empty_packet)
      else (get_info p >>= λ (info, q). get_string q >>= λ (name, r).
          elim (m.entity_rpcs info.type name) [
            | none ↦ ok (st, some invalid_name)
            | some f ↦ wrap_entity right_to_left f r e st >>= λ st'. ok (st', none)
          ])

  -- receive(Packet, T*) for an entity
  unfoldable pub receive_entity : RpcManager S → Packet → ℕ → S → Outcome (S × Option ReceiveError)
  unfolding entity_body
  receive_entity m p e st = caught st (entity_body m p e st)

  -- call for a free function, and callUnsafe
  unfoldable pub call_global :
      RpcManager S → List ℕ → List (ℕ × ℕ) → S → Outcome (S × Option ReceiveError)
  call_global m name args st = elim (m.global_rpcs name) [
    | none ↦ ok (st, none)
    | some r ↦ global_packet name args >>= λ p. receive_global right_to_left m p st
  ]

  -- callUnsafe for an entity
  unfoldable pub call_unsafe_entity :
      RpcManager S → List ℕ → EntityInfo → List (ℕ × ℕ) → S → Outcome (S × Option ReceiveError)
  call_unsafe_entity m name info args st = elim (m.entity_rpcs info.type name) [
    | none ↦ ok (st, none)
    | some r ↦ entity_packet info name args >>= λ p. receive_entity m p info.id st
  ]

  -- What a call of a registered entity function does once its packet is written.
  unfoldable pub run_call :
      RpcManager S → ℕ → EntityInfo → Bool × Bool → Packet → S → Outcome (CallResult S)
  run_call m now info (here, away) p st =
      let p' = if away then stamp now p else p in
      let sent : List Packet = if away then p' ∷ [] else [] in
      if here
      then (receive_entity m p' info.id st >>= λ (st', e).
          ok (record { state = st'; logged = e; sent = sent }))
      else ok (record { state = st; logged = none; sent = sent })

  -- call for an entity, at the time `now`; `client` is `none` where it or the manager is null.
  unfoldable pub call_entity :
      RpcManager S
      → Option Client
      → ℕ
      → List ℕ
      → EntityInfo
      → List (ℕ × ℕ)
      → S
      → Outcome (CallResult S)
  unfolding run_call
  call_entity m none now name info args st = ok (record { state = st; logged = none; sent = [] })
  call_entity m (some client) now name info args st =
      if not client.connected
      then ok (record { state = st; logged = none; sent = [] })
      else elim (m.entity_rpcs info.type name) [
        | none ↦ ok (record { state = st; logged = none; sent = [] })
        | some r ↦ entity_packet info name args >>= λ p.
            run_call m now info (rpc_info r.rpctype (is_owner (some client.id) info)) p st
      ]
