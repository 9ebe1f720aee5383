-- ===== src/Rpc.antt =====
-- src/EnkiNet/Networking/RPC.hpp, RPCManager.hpp and RPCManager.cpp: remote procedure calls to free
-- functions and to entities. A function takes arithmetic parameters, given by their sizes, and acts on
-- the state `S` of the program. The registries are never iterated, so a std::map is a function.
pub mod Args
pub mod Calls
pub mod Transport
pub mod Delivery
use enki_net.Common.{
  ℕ, ◌+◌, ◌≤◌, Bool, true, false, not, ◌&&◌, ◌||◌, List, [], ◌∷◌, ◌++◌, Option, none, some, length,
  leb, ◌==◌, ◌===◌, if◌then◌else◌, Outcome, ok, throws, fault, ◌>>=◌, out_of_range, Exception,
}
use enki_net.Packet.{Packet, PacketHeader, of_header, empty, set_header, type_code, entity_rpc}
use enki_net.Packet.Codec.{put_number, get_number, put_string, get_string}
use enki_net.Entity.{EntityInfo, put_info, get_info, is_owner}
use Args.{put_args, get_args}

pub data RpcType : Type 0 where
  master remote remote_and_local master_and_remote local all : RpcType

abbrev pub rpc_code : RpcType → ℕ
rpc_code master = 0
rpc_code remote = 1
rpc_code remote_and_local = 2
rpc_code master_and_remote = 3
rpc_code local = 4
rpc_code all = 5

-- operator<<(Packet&, RPCType) and operator>>(Packet&, RPCType&); any byte can be read.
unfoldable pub put_rpc_type : RpcType → Packet → Outcome Packet
unfolding put_number
put_rpc_type r p = put_number 1 (rpc_code r) p

unfoldable pub get_rpc_type : Packet → Outcome (ℕ × Packet)
unfolding get_number
get_rpc_type p = get_number 1 p

-- RPCManager::RPCInfo: whether a call runs here, and whether it is sent.
unfoldable pub rpc_info : RpcType → Bool → Bool × Bool
rpc_info master owner = if owner then (true, false) else (false, true)
rpc_info remote owner = if owner then (false, true) else (false, false)
rpc_info remote_and_local owner = if owner then (true, true) else (false, false)
rpc_info master_and_remote owner = (false, true)
rpc_info local owner = (true, false)
rpc_info all owner = (true, true)

-- The errors that `receive` logs, after which the program goes on.
pub data ReceiveError : Type 0 where
  empty_packet invalid_name exception_caught : ReceiveError

module _ (S : Type 0) where
  pub record GlobalRpc : Type 0 where
    pub rpctype : RpcType
    pub params : List ℕ
    pub run : List ℕ → S → S

  -- The instance is the entity's id.
  pub record EntityRpc : Type 0 where
    pub rpctype : RpcType
    pub params : List ℕ
    pub run : ℕ → List ℕ → S → S

  pub record RpcManager : Type 0 where
    pub global_rpcs : List ℕ → Option GlobalRpc
    pub entity_rpcs : List ℕ → List ℕ → Option EntityRpc

module _ {S : Type 0} where
  -- add: a name that is taken stays as it is.
  unfoldable pub add_global :
      RpcType → List ℕ → List ℕ → (List ℕ → S → S) → RpcManager S → RpcManager S
  add_global t name params f m = elim (m.global_rpcs name) [
    | some old ↦ m
    | none ↦ record m {
      global_rpcs = λ n.
          if n === name
          then some (record { rpctype = t; params = params; run = f })
          else m.global_rpcs n;
    }
  ]

  unfoldable pub add_entity :
      RpcType → List ℕ → List ℕ → List ℕ → (ℕ → List ℕ → S → S) → RpcManager S → RpcManager S
  add_entity t type name params f m = elim (m.entity_rpcs type name) [
    | some old ↦ m
    | none ↦ record m {
      entity_rpcs = λ ty n.
          if (ty === type) && (n === name)
          then some (record { rpctype = t; params = params; run = f })
          else m.entity_rpcs ty n;
    }
  ]

  unfoldable pub global_rpc_type : List ℕ → RpcManager S → Outcome RpcType
  global_rpc_type name m = elim (m.global_rpcs name) [
    | none ↦ throws out_of_range
    | some r ↦ ok r.rpctype
  ]

  unfoldable pub entity_rpc_type : List ℕ → List ℕ → RpcManager S → Outcome RpcType
  entity_rpc_type type name m = elim (m.entity_rpcs type name) [
    | none ↦ throws out_of_range
    | some r ↦ ok r.rpctype
  ]

  -- The `catch` of `receive`.
  abbrev pub caught : S → Outcome (S × Option ReceiveError) → Outcome (S × Option ReceiveError)
  caught st (ok r) = ok r
  caught st (throws e) = ok (st, some exception_caught)
  caught st fault = fault

  -- The order in which a call evaluates its arguments is the compiler's choice.
  module _ (right_to_left : Bool) where
    -- RPCUtil::wrap: read the parameters and call.
    unfoldable pub wrap_global : GlobalRpc S → Packet → S → Outcome S
    wrap_global r p st = do (args, q) ← get_args right_to_left r.params p; ok (r.run args st)

    unfoldable pub wrap_entity : EntityRpc S → Packet → ℕ → S → Outcome S
    wrap_entity r p e st = do (args, q) ← get_args right_to_left r.params p; ok (r.run e args st)

    global_body : RpcManager S → Packet → S → Outcome (S × Option ReceiveError)
    global_body m p st =
        if leb (length p.bytes) p.bytes_read
        then ok (st, some empty_packet)
        else (get_string p >>= λ (name, q). elim (m.global_rpcs name) [
          | none ↦ ok (st, some invalid_name)
          | some r ↦ wrap_global r q st >>= λ st'. ok (st', none)
        ])

    -- receive(Packet)
    unfoldable pub receive_global : RpcManager S → Packet → S → Outcome (S × Option ReceiveError)
    unfolding global_body
    receive_global m p st = caught st (global_body m p st)
