-- ===== src/Scenegraph/Update/Rounds.antt =====
-- One round of an update: what it makes of its entity, and that it leaves the others.
use enki_net.Common.{
  ℕ, ◌+◌, ◌^◌, ◌≤◌, ◌<◌, ◌≡◌, refl, sym, ap, ◌∙◌, Bool, true, false, ◌||◌, ◌&&◌, List, [], ◌∷◌,
  Option, none, some, ◌==◌, ==_iff, ==_refl, ==_ne, if◌then◌else◌, Outcome, ok, fault, ◌>>=◌,
  Bool-cases, inl, inr, arith, ℕ_discrete,
}
use enki_net.Packet.{Packet, of_header, le_bytes}
use enki_net.Packet.Laws.{Writes}
use enki_net.Packet.RoundTrip.{put_number-Writes}
use enki_net.Packet.Transmission.{new_packet_room}
use enki_net.Packet.Codec.{put_number}
use enki_net.Entity.{EntityInfo, is_negative}
use enki_net.Scenegraph.{
  Scene, SceneEntity, lookup, store, entity_exists, delete_entity, erase_removed,
}
use enki_net.Scenegraph.Deletion.{deletion_header, lookup-erase_below}
use enki_net.Scenegraph.Store.{rank, Sorted, lookup-store, lookup-store_other, store-Sorted}
use enki_net.Scenegraph.Update.{mark_deleted, delete_here, update_one}

abbrev pub present : {A : Type 0} → Option A → Bool
present none = false
present (some a) = true

module _ {G : Type 0} where
  -- What the well-formed order says of an entity that is found.
  pub Sorted-lookup :
      (lo top id : ℕ) (es : List (ℕ × SceneEntity G)) (e : SceneEntity G)
      → Sorted lo top es
      → lookup id es ≡ some e
      → (lo ≤ rank id) × (id < 2 ^ 32) × (e.info.id ≡ id) × (2 ^ 31 ≤ id → top < id)
  unfolding lookup
  Sorted-lookup lo top id [] e o h = absurd (cc h)
  Sorted-lookup lo top id ((k, x) ∷ rest) e o h = elim (Bool-cases (k == id)) [
    | inl at ↦
        let eq : k ≡ id = (==_iff k id).0 at in
        let found : x ≡ e = cc (rw at at h) in
        let same : e.info.id ≡ id = sym (ap (λ (y : SceneEntity G). y.info.id) found) ∙ o.2 ∙ eq in
        (rw eq at o.0, rw eq at o.1, same, λ g. rw eq at (o.3 (omega (arith, eq, g))))
    | inr ne ↦
        let later = Sorted-lookup (rank k + 1) top id rest e o.4 (rw ne at h) in
        (omega (arith, later.0, o.0), later.1, later.2, later.3)
  ]

  -- What the erasing leaves.
  abbrev pub erased : Option (SceneEntity G) → Option (SceneEntity G)
  erased none = none
  erased (some e) = if e.remove then none else some e

  pub lookup-erase :
      (lo top id : ℕ) (es : List (ℕ × SceneEntity G))
      → Sorted lo top es
      → lookup id (erase_removed es) ≡ erased (lookup id es)
  unfolding lookup erase_removed
  lookup-erase lo top id [] o = refl
  lookup-erase lo top id ((k, x) ∷ rest) o = elim (ℕ_discrete k id) [
    | yes at ↦
        let below = lookup-erase_below (rank k + 1) top id rest (rw at (omega arith)) o.4 in
        rw (at, ==_refl id) (at_head at below)
    | no ne ↦
        rw (==_ne k id ne) (in_rest (==_ne k id ne) (lookup-erase (rank k + 1) top id rest o.4))
  ]
    where
      at_head :
          k ≡ id
          → lookup id (erase_removed rest) ≡ none
          → lookup id (if x.remove then erase_removed rest else (id, x) ∷ erase_removed rest)
            ≡ erased (some x)
      at_head at below = elim (Bool-cases x.remove) [
        | inl gone ↦ rw gone below
        | inr kept ↦ rw (kept, ==_refl id) refl
      ]

      in_rest :
          k == id ≡ false
          → lookup id (erase_removed rest) ≡ erased (lookup id rest)
          → lookup id (if x.remove then erase_removed rest else (k, x) ∷ erase_removed rest)
            ≡ erased (lookup id rest)
      in_rest ne later = elim (Bool-cases x.remove) [
        | inl gone ↦ rw gone later
        | inr kept ↦ rw (kept, ne) later
      ]

module _ {G : Type 0} (run : G → G) (ex : ℕ → Bool) (heard : Bool) where
  -- What one round makes of an entity: it is updated, if its parent is there or it has none, and else it is marked, if
  -- it is local or this program hears of its deletion at once, or else waits for the server.
  abbrev pub step : SceneEntity G → SceneEntity G
  step e =
      if e.info.parent_id == 0 || ex e.info.parent_id
      then record e { self = run e.self }
      else if is_negative e.info.id || heard
      then record e { remove = true }
      else e

  abbrev pub steps : Option (SceneEntity G) → Option (SceneEntity G)
  steps none = none
  steps (some e) = some (step e)

-- A result in which the entity under `k` is `e`, and the scene is else as `t` is.
unfoldable pub Steps :
    {G : Type 0} → Scene G → ℕ → SceneEntity G → Outcome (List Packet × Scene G) → Type 0
Steps {G} t k e r =
    (sent : List Packet) × (t1 : Scene G) × (r ≡ ok (sent, t1))
    × Sorted 0 t1.local_id t1.entities
    × (t1.network_ready ≡ t.network_ready)
    × ((j : ℕ) → lookup j t1.entities ≡ (if j == k then some e else lookup j t.entities))

module _ {G : Type 0} (t : Scene G) (k : ℕ) (x : SceneEntity G)
    (sorted : Sorted 0 t.local_id t.entities) (there : lookup k t.entities ≡ some x) where
  with-Steps :
      (sent : List Packet) (e : SceneEntity G)
      → e.info ≡ x.info
      → Steps t k e (ok (sent, record t { entities = store k e t.entities }))
  unfolding Steps
  with-Steps sent e same =
      let at = Sorted-lookup 0 t.local_id k t.entities x sorted there in
      (
        sent,
        record t { entities = store k e t.entities },
        refl,
        store-Sorted 0 t.local_id k e t.entities at.0 at.1
            (ap (λ (i : EntityInfo). i.id) same ∙ at.2) at.3 sorted,
        refl,
        λ j. elim (ℕ_discrete j k) [
          | yes e1 ↦ rw (e1, ==_refl k) (lookup-store k e t.entities)
          | no ne ↦ rw (==_ne j k ne) (lookup-store_other j k e t.entities ne)
        ],
      )

  kept-Steps : (sent : List Packet) → Steps t k x (ok (sent, t))
  unfolding Steps
  kept-Steps sent = (
    sent,
    t,
    refl,
    sorted,
    refl,
    λ j. elim (ℕ_discrete j k) [
      | yes e1 ↦ rw (e1, ==_refl k) there
      | no ne ↦ rw (==_ne j k ne) refl
    ],
  )

  via-Steps :
      (e : SceneEntity G) (r r' : Outcome (List Packet × Scene G))
      → r ≡ r'
      → Steps t k e r'
      → Steps t k e r
  unfolding Steps
  via-Steps e r r' h (sent, t1, run, o, n, l) = (sent, t1, h ∙ run, o, n, l)

  mark_deleted_lem : mark_deleted k t ≡ (
      let marked : SceneEntity G = record x { remove = true } in
      record t { entities = store k marked t.entities })
  unfolding mark_deleted
  mark_deleted_lem = ap mark there
    where
      mark : Option (SceneEntity G) → Scene G
      mark found = elim found [
        | none ↦ t
        | some e ↦
            let marked : SceneEntity G = record e { remove = true } in
            record t { entities = store k marked t.entities }
      ]

  -- A deletion that was sent.
  heard-Steps :
      (hosting : Bool) (sent : List Packet)
      → Steps t k
          (if hosting && true then record x { remove = true } else x)
          (ok (sent, if hosting then mark_deleted k t else t))
  heard-Steps true sent = rw mark_deleted_lem (with-Steps sent (record x { remove = true }) refl)
  heard-Steps false sent = kept-Steps sent

  silent-Steps :
      (hosting : Bool)
      → Steps t k (if hosting && false then record x { remove = true } else x) (ok ([], t))
  silent-Steps true = kept-Steps []
  silent-Steps false = kept-Steps []

  -- The deletion of an entity whose parent is gone.
  delete_here-Steps :
      (hosting : Bool)
      → Steps t k
          (if is_negative x.info.id || (hosting && t.network_ready)
            then record x { remove = true }
            else x)
          (delete_here hosting k t)
  delete_here-Steps hosting =
      via-Steps _ (delete_here hosting k t) (then_hear (deletion x)) found
        (elim (Bool-cases (is_negative x.info.id)) [
          | inl local ↦ rw local (with-Steps [] (record x { remove = true }) refl)
          | inr shared ↦
              rw shared
                (elim t.network_ready
                  as (λ ready.
                    Steps t k (if hosting && ready then record x { remove = true } else x) (
                      then_hear (
                        if ready
                        then (put_number 4 k (of_header deletion_header) >>= λ p. ok (p ∷ [], t))
                        else ok ([], t)))) [
                          | true ↦ rw message.1 (heard-Steps hosting (message.0 ∷ []))
                          | false ↦ silent-Steps hosting
                        ])
        ])
    where
      deletion : SceneEntity G → Outcome (List Packet × Scene G)
      deletion e =
          let marked : SceneEntity G = record e { remove = true } in
          if is_negative e.info.id
          then ok ([], record t { entities = store k marked t.entities })
          else if t.network_ready
          then (put_number 4 k (of_header deletion_header) >>= λ p. ok (p ∷ [], t))
          else ok ([], t)

      then_hear : Outcome (List Packet × Scene G) → Outcome (List Packet × Scene G)
      then_hear r = r >>= λ (sent, s').
          ok (sent, elim sent [ [] ↦ s' | p ∷ ps ↦ if hosting then mark_deleted k s' else s' ])

      found : delete_here hosting k t ≡ then_hear (deletion x)
      found =
          unfold delete_here delete_entity in
          ap
            (λ (e : Option (SceneEntity G)).
              then_hear (elim e [ none ↦ fault | some y ↦ deletion y ]))
            there

      message :
          Writes
            (put_number 4 k (of_header deletion_header))
            (of_header deletion_header)
            (le_bytes 4 k)
      message = put_number-Writes 4 k (of_header deletion_header) (new_packet_room deletion_header)

-- The update of a game's class that always returns and changes nothing but its own entity.
abbrev pub own : {G : Type 0} → (G → G) → ℕ → Scene G → Outcome (List Packet × Scene G)
own run key s = elim (lookup key s.entities) [
  | none ↦ ok ([], s)
  | some e ↦
      let e' : SceneEntity _ = record e { self = run e.self } in
      ok ([], record s { entities = store key e' s.entities })
]

module _ {G : Type 0} (hosting : Bool) (run : G → G) (ex : ℕ → Bool) where
  pub update_one-Steps :
      (t : Scene G) (k : ℕ) (x : SceneEntity G)
      → Sorted 0 t.local_id t.entities
      → lookup k t.entities ≡ some x
      → entity_exists x.info.parent_id t ≡ ex x.info.parent_id
      → Steps t k (step run ex (hosting && t.network_ready) x) (update_one hosting (own run) k t)
  update_one-Steps t k x sorted there parent =
      let at = Sorted-lookup 0 t.local_id k t.entities x sorted there in
      via-Steps t k x sorted there _ (update_one hosting (own run) k t) (visit x) found
        (elim (Bool-cases (x.info.parent_id == 0 || ex x.info.parent_id)) [
          | inl stays ↦
              rw (parent, stays)
                (with-Steps t k x sorted there [] (record x { self = run x.self }) refl)
          | inr orphan ↦
              rw (parent, orphan)
                (via-Steps t k x sorted there _ (delete_here hosting x.info.id t)
                  (delete_here hosting k t) (ap (λ (i : ℕ). delete_here hosting i t) at.2)
                  (delete_here-Steps t k x sorted there hosting))
        ])
    where
      visit : SceneEntity G → Outcome (List Packet × Scene G)
      visit e =
          let e' : SceneEntity G = record e { self = run e.self } in
          if e.info.parent_id == 0 || entity_exists e.info.parent_id t
          then ok ([], record t { entities = store k e' t.entities })
          else delete_here hosting e.info.id t

      chosen : Option (SceneEntity G) → Option (SceneEntity G) → Outcome (List Packet × Scene G)
      chosen a b = elim a [
        | none ↦ ok ([], t)
        | some e ↦
            if e.info.parent_id == 0 || entity_exists e.info.parent_id t
            then elim b [
              | none ↦ ok ([], t)
              | some y ↦
                  let e' : SceneEntity G = record y { self = run y.self } in
                  ok ([], record t { entities = store k e' t.entities })
            ]
            else delete_here hosting e.info.id t
      ]

      found : update_one hosting (own run) k t ≡ visit x
      found = unfold update_one in ap (λ (e : Option (SceneEntity G)). chosen e e) there
