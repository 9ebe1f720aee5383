-- ===== src/Tests/Scenes.antt =====
-- Scenegraphs and clients at concrete inputs: a ball with the id 5, whose owner is the client 2.
use enki_net.Common.{
  Outcome, ℕ, ◌+◌, ◌≡◌, refl, ◌===◌, true, false, not, ◌&&◌, ◌==◌, [], ◌∷◌, ◌++◌, none, some, ok,
  fault, inl, arith,
}
use enki_net.Packet.{Packet, empty}
use enki_net.Packet.Laws.{Ready}
use enki_net.Packet.Codec.{put_number}
use enki_net.Packet.RoundTrip.{string_bytes}
use enki_net.Entity.{EntityInfo}
use enki_net.Entity.Laws.{IsInfo, info_bytes}
use enki_net.Rpc.{RpcManager, EntityRpc, master, remote_and_local, rpc_info}
use enki_net.Server.{new_ids, new_inbox, get_next_uid}
use enki_net.Server.Sends.{Sends}
use enki_net.Scenegraph.{Scene, SceneEntity, lookup, new_scene}
use enki_net.Scenegraph.Routing.{serve_rpc}
use enki_net.Scenegraph.Delivery.{is_client, promised, runs, runs-promised, serve_rpc-Sends}
use enki_net.Scenegraph.Client.{Game, client_handler}
use enki_net.Scenegraph.Client.Errors.{
  IsStale, absent, client_handler-IsStale, client_handler_unregistered,
}
use enki_net.Scenegraph.Store.{IsScene, Created, create_entity-Created}
use enki_net.Client.{ClientState}
use enki_net.Client.Initialization.{Initialized, client_init-Initialized}

abbrev ball : EntityInfo
ball = record { type = 101 ∷ []; name = 98 ∷ []; id = 5; owner_id = 2; parent_id = 0 }

ball-IsInfo : IsInfo ball
ball-IsInfo = record {
  id_fits = omega arith;
  owner_fits = omega arith;
  parent_fits = omega arith;
  type_fits = omega arith;
  name_fits = omega arith;
}

runs-promised_example : runs master 2 3 2 ≡ promised master 2 3 2
runs-promised_example = runs-promised master 2 3 2

abbrev adder : EntityRpc ℕ
adder = record { rpctype = remote_and_local; params = []; run = λ e xs st. st + 1 }

abbrev manager : RpcManager ℕ
manager = record { global_rpcs = λ n. none; entity_rpcs = λ t n. some adder }

abbrev kept_ball : SceneEntity ℕ
kept_ball = record { info = ball; remove = false; self = 0 }

abbrev scene : Scene ℕ
scene = record new_scene { entities = (5, kept_ball) ∷ []; network_ready = true }

abbrev call : Packet
call = record {
  info = record { sender_id = 2; time_received = 60 };
  header = record { type = 12; time_sent = 50 };
  bytes = 12 ∷ 0 ∷ 0 ∷ 0 ∷ 50 ∷ 0 ∷ 0 ∷ 0 ∷ (info_bytes ball ++ (string_bytes (102 ∷ []) ++ []));
  bytes_written = 47;
  bytes_read = 8;
  bits_written = 8;
  bits_read = 8;
}

call-Ready : Ready call (info_bytes ball ++ (string_bytes (102 ∷ []) ++ []))
call-Ready = record { inside = omega arith; aligned = refl; unread = refl }

there : lookup 5 scene.entities ≡ some kept_ball
unfolding lookup
there = refl

sends : (rpc_info remote_and_local (2 == 2)).1 ≡ true
unfolding rpc_info
sends = refl

serve_rpc-Sends_example :
    Sends 70
      (2 ∷ 3 ∷ [])
      (λ x. is_client (2 ∷ 3 ∷ []) x && (not (x == 2) && promised remote_and_local 2 2 x))
      call
      (serve_rpc manager scene 70 (2 ∷ 3 ∷ []) call)
serve_rpc-Sends_example =
    serve_rpc-Sends manager scene adder kept_ball 70 (2 ∷ 3 ∷ []) ball (102 ∷ []) [] call
      ball-IsInfo (omega arith) refl there refl call-Ready (omega arith) refl sends

abbrev count_bytes : Packet → ℕ → Outcome ℕ
count_bytes p n = ok (n + 1)

abbrev build : EntityInfo → ℕ
build info = 7

abbrev wall : EntityInfo
wall = record { type = 119 ∷ []; name = 97 ∷ []; id = 0; owner_id = 0; parent_id = 0 }

abbrev ready_scene : Scene ℕ
ready_scene = record new_scene { builders = λ type. some build }

ready_scene-IsScene : IsScene ready_scene
ready_scene-IsScene = record { sorted = tt; negative = omega arith; fits = omega arith }

create_entity-Created_example : Created count_bytes wall empty ready_scene 8 5
unfolding ◌===◌
create_entity-Created_example =
    create_entity-Created count_bytes build wall empty ready_scene 8 5 ready_scene-IsScene
      (λ e. omega (arith, e)) (omega arith) refl refl refl refl refl

abbrev new_client : ClientState
new_client = record { id = 0; connected_to_server = false; inbox = new_inbox }

client_init-Initialized_example : Initialized new_ids 500 520 new_client
unfolding get_next_uid
client_init-Initialized_example =
    client_init-Initialized new_ids 500 520 new_client (omega arith) (omega arith)

abbrev game : Game ℕ
game = record {
  on_spawn = count_bytes;
  deserialize_on_connection = λ p n. ok (n + 1);
  deserialize_on_tick = λ p n. ok (n + 2);
  serialize_on_connection = λ n p. put_number 4 n p;
  serialize_on_tick = λ n p. put_number 4 n p;
  network_tick_rate = λ n. 2;
  receive_rpc = λ p n. ok (n + 3);
}

abbrev update_packet : Packet
update_packet = record call { header = record { type = 10; time_sent = 50 } }

update_packet-Ready : Ready update_packet (info_bytes ball ++ (string_bytes (102 ∷ []) ++ []))
update_packet-Ready = record { inside = omega arith; aligned = refl; unread = refl }

ball-IsStale : IsStale ready_scene ball
unfolding lookup
ball-IsStale = absent refl

client_handler-IsStale_example : client_handler true game update_packet ready_scene ≡ ok ready_scene
client_handler-IsStale_example =
    client_handler-IsStale true game ball (string_bytes (102 ∷ []) ++ []) update_packet ready_scene
      ball-IsInfo update_packet-Ready (inl refl) ball-IsStale

abbrev connection_creation : Packet
connection_creation = record call { header = record { type = 9; time_sent = 50 } }

connection_creation-Ready :
    Ready connection_creation (info_bytes ball ++ (string_bytes (102 ∷ []) ++ []))
connection_creation-Ready = record { inside = omega arith; aligned = refl; unread = refl }

client_handler_unregistered_example : client_handler true game connection_creation new_scene ≡ fault
client_handler_unregistered_example =
    client_handler_unregistered true game ball (string_bytes (102 ∷ []) ++ []) connection_creation
      new_scene ball-IsInfo connection_creation-Ready refl refl
