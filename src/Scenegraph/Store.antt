-- ===== src/Scenegraph/Store.antt =====
-- The map of entities, the ids of local entities, and createEntity and the finders on top of it.
use enki_net.Common.{
  Outcome, ok, ℕ, ◌+◌, ◌-◌, ◌%◌, ◌^◌, ◌≤◌, ◌<◌, ◌≡◌, ◌≢◌, refl, false, List, [], ◌∷◌, none, some,
  ltb→lt, ltb→le, ◌==◌, ==_refl, ==_iff, ◌===◌, arith, Bool-cases, inl, inr,
}
use enki_net.Packet.{Packet}
use enki_net.Entity.{EntityInfo}
use enki_net.Scenegraph.{SceneEntity, Scene, signed_ltb, lookup, store, create_entity}

-- The place of an id in the order of int32_t.
abbrev pub rank : ℕ → ℕ
rank id = (id + 2 ^ 31) % 2 ^ 32

-- The keys rise, are those of the entities, and lie at the rank `lo` or above; those of local entities
-- are above `top`.
abbrev pub Sorted : {G : Type 0} → ℕ → ℕ → List (ℕ × SceneEntity G) → Type 0
Sorted lo top [] = Unit {0}
Sorted lo top ((k, e) ∷ rest) =
    (lo ≤ rank k)
    × (k < 2 ^ 32)
    × (e.info.id ≡ k)
    × (2 ^ 31 ≤ k → top < k)
    × Sorted (rank k + 1) top rest

-- The map is in order, and `local_id` is a negative id below those of all local entities.
pub record IsScene {G : Type 0} (s : Scene G) : Type 0 where
  pub sorted : Sorted 0 s.local_id s.entities
  pub negative : 2 ^ 31 ≤ s.local_id
  pub fits : s.local_id < 2 ^ 32

module _ {G : Type 0} where
  pub lookup-store :
      (id : ℕ) (e : SceneEntity G) (es : List (ℕ × SceneEntity G))
      → lookup id (store id e es) ≡ some e
  unfolding lookup store
  lookup-store id e [] = rw (==_refl id)
  lookup-store id e ((k, x) ∷ rest) = ground (arith, lookup-store id e rest, ==_refl id)

  pub lookup-store_other :
      (j id : ℕ) (e : SceneEntity G) (es : List (ℕ × SceneEntity G))
      → j ≢ id
      → lookup j (store id e es) ≡ lookup j es
  unfolding lookup store
  lookup-store_other j id e [] ne = ground (arith, ne)
  lookup-store_other j id e ((k, x) ∷ rest) ne =
      ground (arith, ne, lookup-store_other j id e rest ne)

  pub store-Sorted :
      (lo top id : ℕ) (e : SceneEntity G) (es : List (ℕ × SceneEntity G))
      → lo ≤ rank id
      → id < 2 ^ 32
      → e.info.id ≡ id
      → (2 ^ 31 ≤ id → top < id)
      → Sorted lo top es
      → Sorted lo top (store id e es)
  unfolding store
  store-Sorted lo top id e [] h f same l o = (h, f, same, l, tt)
  store-Sorted lo top id e ((k, x) ∷ rest) h f same l o = elim (Bool-cases (k == id)) [
    | inl at ↦ let eq : k ≡ id = (==_iff k id).0 at in rw at (h, f, same, l, rw eq at o.4)
    | inr ne ↦ elim (Bool-cases (signed_ltb id k)) [
      | inl lt ↦
          rw (ne, lt)
            (h, f, same, l, (omega (arith, ltb→lt (rank id) (rank k) lt), o.1, o.2, o.3, o.4))
      | inr ge ↦
          let apart : rank k + 1 ≤ rank id =
            ground (arith, ltb→le (rank id) (rank k) ge, ne, o.1, f) in
          rw (ne, ge)
            (o.0, o.1, o.2, o.3, store-Sorted (rank k + 1) top id e rest apart f same l o.4)
    ]
  ]

  Sorted-lower :
      (lo top top' : ℕ) (es : List (ℕ × SceneEntity G))
      → top' ≤ top
      → Sorted lo top es
      → Sorted lo top' es
  Sorted-lower lo top top' [] h o = tt
  Sorted-lower lo top top' ((k, x) ∷ rest) h o =
      (o.0, o.1, o.2, (λ g. omega (arith, o.3 g)), Sorted-lower (rank k + 1) top top' rest h o.4)

  -- No entity has the next local id.
  lookup-local_id :
      (lo top : ℕ) (es : List (ℕ × SceneEntity G))
      → 2 ^ 31 ≤ top
      → Sorted lo top es
      → lookup top es ≡ none
  unfolding lookup
  lookup-local_id lo top [] h o = refl
  lookup-local_id lo top ((k, x) ∷ rest) h o =
      ground (arith, o.3, lookup-local_id (rank k + 1) top rest h o.4)

-- What a creation with a fresh local id promises, for what onSpawn makes of the new entity.
pub record Created {G : Type 0} (on_spawn : Packet → G → Outcome G) (info : EntityInfo)
    (spawn : Packet) (s : Scene G) (g : G) (j : ℕ) : Type 0 where
  pub after : Scene G
  pub creates : create_entity on_spawn info spawn s ≡ ok (some s.local_id, after)
  pub fresh : lookup s.local_id s.entities ≡ none
  pub kept :
      let info' : EntityInfo = record info { id = s.local_id } in
      lookup s.local_id after.entities ≡ some (record { info = info'; remove = false; self = g })
  pub other : lookup j after.entities ≡ lookup j s.entities
  pub scene : IsScene after

-- Creating an entity with a name, a registered type and the id 0, whose onSpawn returns, in a well-formed scene gives it
-- a local id that no entity has, keeps it under this id as onSpawn made it, leaves what is under any other id `j` as it
-- was, and keeps the scene well formed. This holds until the local ids are used up.
pub create_entity-Created :
    {G : Type 0} (on_spawn : Packet → G → Outcome G) (build : EntityInfo → G) (info : EntityInfo)
    (spawn : Packet) (s : Scene G) (g : G) (j : ℕ)
    → IsScene s
    → j ≢ s.local_id
    → 2 ^ 31 < s.local_id
    → info.id ≡ 0
    → (info.name === []) ≡ false
    → (info.type === []) ≡ false
    → s.builders info.type ≡ some build
    → on_spawn spawn (build (record info { id = s.local_id })) ≡ ok g
    → Created on_spawn info spawn s g j
unfolding create_entity
create_entity-Created {G} on_spawn build info spawn s g j v ne more zero named typed built spawned =
    record {
      after = after;
      creates = rw (named, typed, built, zero, spawned) refl;
      fresh = lookup-local_id 0 s.local_id s.entities v.negative v.sorted;
      kept = lookup-store s.local_id e s.entities;
      other = lookup-store_other j s.local_id e s.entities ne;
      scene = record {
        sorted =
            store-Sorted 0 after.local_id s.local_id e s.entities (omega arith) v.fits refl
              (λ g. omega arith)
              (Sorted-lower 0 s.local_id after.local_id s.entities (omega arith) v.sorted);
        negative = omega arith;
        fits = omega arith;
      };
    }
  where
    e : SceneEntity G
    e =
        let info' : EntityInfo = record info { id = s.local_id } in
        record { info = info'; remove = false; self = g }

    after : Scene G
    after = record s {
      entities = store s.local_id e s.entities;
      local_id = (s.local_id + (2 ^ 32 - 1)) % 2 ^ 32;
    }
