-- ===== src/Scenegraph/Update.antt =====
-- Scenegraph::update and enableNetworking of src/EnkiNet/Scenegraph.cpp. `on_update` is what the update of a
-- game's class, for the time that has passed, does to the scene when it is called for the entity with a key, and what
-- it sends: it may change, mark and delete entities, and may throw, but it creates none here, so that the loop runs
-- over the keys that were there at its beginning. `hosting` says whether the server is a host, whose local client has
-- the handler of the scenegraph connected.
pub mod Rounds
pub mod Reference
use enki_net.Common.{
  ℕ, Bool, true, false, ◌||◌, List, [], ◌∷◌, ◌++◌, map, none, some, ◌==◌, if◌then◌else◌, Outcome,
  ok, ◌>>=◌,
}
use enki_net.Packet.{Packet}
use enki_net.Scenegraph.{
  Scene, SceneEntity, lookup, store, entity_exists, delete_entity, erase_removed,
}
use enki_net.Scenegraph.Creation.{Peers, has_peer}

-- enableNetworking, with whether it connects the server's handler, and the client's with that of the tick.
unfoldable pub enable_networking : {G : Type 0} → Peers → Scene G → Scene G × Bool × Bool
enable_networking peers s =
    if s.network_ready
    then (s, false, false)
    else if has_peer peers
    then (
      record s { network_ready = true },
      peers.server,
      elim peers.client [ none ↦ false | some id ↦ true ],
    )
    else (s, false, false)

-- The branch for ENTITY_DELETION of the client's handler, for the id in the packet.
unfoldable pub mark_deleted : {G : Type 0} → ℕ → Scene G → Scene G
mark_deleted id s = elim (lookup id s.entities) [
  | none ↦ s
  | some e ↦
      let marked : SceneEntity _ = record e { remove = true } in
      record s { entities = store id marked s.entities }
]

-- deleteEntity with what it sets off in this program: sendPacketToAllClients of a host emits the packet to the handlers
-- of the local client before it returns.
unfoldable pub delete_here : {G : Type 0} → Bool → ℕ → Scene G → Outcome (List Packet × Scene G)
unfolding delete_entity mark_deleted
delete_here hosting id s = delete_entity id s >>= λ (sent, s').
    let heard = mark_deleted id s' in
    ok (sent, elim sent [ [] ↦ s' | p ∷ ps ↦ if hosting then heard else s' ])

module _ {G : Type 0} (hosting : Bool)
    (on_update : ℕ → Scene G → Outcome (List Packet × Scene G)) where
  -- One round of the loop, with the packets that it sends: an entity whose parent is gone is deleted.
  unfoldable pub update_one : ℕ → Scene G → Outcome (List Packet × Scene G)
  unfolding delete_here entity_exists
  update_one key s = elim (lookup key s.entities) [
    | none ↦ ok ([], s)
    | some e ↦
        let updated = on_update key s in
        let deleted = delete_here hosting e.info.id s in
        if e.info.parent_id == 0 || entity_exists e.info.parent_id s then updated else deleted
  ]

  -- The loop over the keys.
  unfoldable pub update_each : List ℕ → Scene G → Outcome (List Packet × Scene G)
  unfolding update_one
  update_each [] s = ok ([], s)
  update_each (key ∷ keys) s = do
    (sent, s') ← update_one key s
    (more, s'') ← update_each keys s'
    ok (sent ++ more, s'')

  -- Scenegraph::update
  unfoldable pub update : Scene G → Outcome (List Packet × Scene G)
  unfolding update_each
  update s = do
    (sent, s') ← update_each (map (λ (k, e). k) s.entities) s
    ok (sent, record s' { entities = erase_removed s'.entities })
