-- ===== src/Scenegraph/Tick.antt =====
-- The handler of the network tick in src/EnkiNet/Scenegraph.cpp, which is connected if there is a client:
-- the entities that this program owns and whose turn it is are sent to the server. Writing an entity to a packet does
-- not change it; the clock shows one time throughout a tick.
pub mod Updates
pub mod Sync
use enki_net.Common.{
  ℕ, ◌+◌, ◌%◌, ◌^◌, Bool, true, false, ◌&&◌, List, [], ◌∷◌, some, ltb, ◌==◌, Outcome, ok, ◌>>=◌,
}
use enki_net.Packet.{Packet, PacketHeader, of_header, clear, type_code, entity_update}
use enki_net.Entity.{EntityInfo, put_info, is_owner}
use enki_net.Server.{stamp_time}
use enki_net.Scenegraph.{Scene, SceneEntity}
use enki_net.Scenegraph.Client.{Game}

abbrev pub update_header : PacketHeader
update_header = record { type = type_code entity_update; time_sent = 0 }

module _ {G : Type 0} (game : Game G) (client now : ℕ) where
  -- The test on an entity, at a number of ticks.
  unfoldable pub is_due : ℕ → SceneEntity G → Bool
  unfolding is_owner
  is_due ticks e =
      let rate = game.network_tick_rate e.self in
      is_owner (some client) e.info && ltb 0 rate && ticks % rate == 0

  -- The loop, which sends one packet again and again: sending stamps it.
  unfoldable pub send_updates : ℕ → Packet → List (ℕ × SceneEntity G) → Outcome (List Packet)
  unfolding is_due put_info
  send_updates ticks p [] = ok []
  send_updates ticks p ((k, e) ∷ rest) = elim (is_due ticks e) [
    | false ↦ send_updates ticks p rest
    | true ↦ put_info e.info (clear p) >>= game.serialize_on_tick e.self >>= λ q.
        send_updates ticks (stamp_time now q) rest >>= λ sent. ok (stamp_time now q ∷ sent)
  ]

  -- The handler.
  unfoldable pub on_network_tick : Scene G → Outcome (List Packet × Scene G)
  on_network_tick s = do
    let ticks = (s.total_network_ticks + 1) % 2 ^ 32
    sent ← send_updates ticks (of_header update_header) s.entities
    ok (sent, record s { total_network_ticks = ticks })
