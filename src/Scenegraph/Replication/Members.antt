-- ===== src/Scenegraph/Replication/Members.antt =====
-- The entities that a client has after the packets of createNetworkedEntity in src/EnkiNet/Scenegraph.cpp.
use enki_net.Common.{
  Outcome, throws, fault, ℕ, ◌^◌, ◌<◌, ◌≡◌, refl, sym, ap, ◌∙◌, Bool, false, List, [], ◌∷◌, Option,
  none, some, ◌==◌, ==_refl, ==_ne, if◌then◌else◌, ok, ℕ_discrete,
}
use enki_net.Packet.{Packet}
use enki_net.Packet.Channel.{received}
use enki_net.Entity.{EntityInfo}
use enki_net.Scenegraph.{Scene, SceneEntity, lookup, store, create_entity}
use enki_net.Scenegraph.Client.{Game}
use enki_net.Scenegraph.Creation.Family.{Member, Announces}
use enki_net.Scenegraph.Joining.{IsJoinable}
use enki_net.Scenegraph.Replication.{Deliverable, create_all, receive_all, receive_all-create_all}
use enki_net.Scenegraph.Store.{lookup-store, lookup-store_other}

module _ {G : Type 0} (game : Game G) (builders : List ℕ → Option (EntityInfo → G)) where
  -- The members have ids, names and types, their types are registered, and onSpawn returns.
  abbrev pub Registered : List Member → Type 0
  Registered [] = Unit {0}
  Registered ((info, spawn) ∷ ms) =
      IsJoinable game.on_spawn (received spawn.bytes) builders info × Registered ms

  -- What onSpawn makes of a new entity.
  abbrev pub spawned : EntityInfo → Outcome G → Option (SceneEntity G)
  spawned info (ok g) = some (record { info = info; remove = false; self = g })
  spawned info (throws x) = none
  spawned info fault = none

  -- What a builder makes of the info of a member, after onSpawn with the bytes of the spawn packet.
  abbrev pub built : Member → Option (EntityInfo → G) → Option (SceneEntity G)
  built m none = none
  built (info, spawn) (some build) =
      spawned info (game.on_spawn (received spawn.bytes) (build info))

  abbrev pub entity_of : Member → Option (SceneEntity G)
  entity_of m = built m (builders m.0.type)

  -- What stands under the id `j`, where `old` stood: the entity of the last member with this id, if there is one.
  abbrev pub standing : ℕ → List Member → Option (SceneEntity G) → Option (SceneEntity G)
  standing j [] old = old
  standing j (m ∷ ms) old = standing j ms (if j == m.0.id then entity_of m else old)

  created_lem :
      (info : EntityInfo) (spawn : Packet) (s : Scene G)
      → s.builders ≡ builders
      → IsJoinable game.on_spawn (received spawn.bytes) builders info
      → (t : Scene G) × (create_entity game.on_spawn info (received spawn.bytes) s
          ≡ ok (some info.id, t))
        × (t.builders ≡ builders)
        × ((j : ℕ)
            → lookup j t.entities
              ≡ (if j == info.id then entity_of (info, spawn) else lookup j s.entities))
  created_lem info spawn s same known = (
    record s { entities = store info.id e s.entities },
    made,
    same,
    λ j. elim (ℕ_discrete j info.id) [
      | yes at ↦ rw (at, ==_refl info.id) (lookup-store info.id e s.entities ∙ sym registered)
      | no ne ↦ rw (==_ne j info.id ne) (lookup-store_other j info.id e s.entities ne)
    ],
  )
    where
      e : SceneEntity G
      e = record { info = info; remove = false; self = known.fresh }

      registered : entity_of (info, spawn) ≡ some e
      registered = ap (built (info, spawn)) known.known ∙ ap (spawned info) known.spawned

      made :
          create_entity game.on_spawn info (received spawn.bytes) s
          ≡ ok (some info.id, record s { entities = store info.id e s.entities })
      made =
          unfold create_entity in
          rw
            (
              known.refused,
              ap (λ (b : List ℕ → Option (EntityInfo → G)). b info.type) same ∙ known.known,
              known.numbered,
              known.spawned,
            )
            refl

  create_all-standing :
      (ms : List Member) (s : Scene G)
      → s.builders ≡ builders
      → Registered ms
      → (after : Scene G) × (create_all game ms s ≡ ok after)
        × ((j : ℕ) → lookup j after.entities ≡ standing j ms (lookup j s.entities))
  create_all-standing [] s same known = (s, refl, λ j. refl)
  create_all-standing ((info, spawn) ∷ ms) s same known =
      let (t, made, kept, seen) = created_lem info spawn s same known.0 in
      let (after, rest, stands) = create_all-standing ms t kept known.1 in
      (after, rw made rest, λ j. stands j ∙ ap (standing j ms) (seen j))

-- The packets that announce members, whose infos and spawn packets a packet can carry, which have ids, names and types,
-- and whose types are registered at the client with an onSpawn that returns, sent in order, make the client have, under each id of a member, the
-- entity that the builder of its type makes of its info, after onSpawn with the bytes of the spawn packet (of the last
-- member with the id); what it has under other ids stays.
pub receive_all-members :
    {G : Type 0} (null : Bool) (game : Game G) (now : ℕ) (ps : List Packet) (ms : List Member)
    (s : Scene G)
    → now < 2 ^ 32
    → Announces ps ms
    → Deliverable ms
    → Registered game s.builders ms
    → (after : Scene G) × (receive_all null game now ps s ≡ ok after)
      × ((j : ℕ) → lookup j after.entities ≡ standing game s.builders j ms (lookup j s.entities))
receive_all-members null game now ps ms s fits sent each known =
    let (after, made, stands) = create_all-standing game s.builders ms s refl known in
    (after, receive_all-create_all null game now ps ms s fits sent each ∙ made, stands)
