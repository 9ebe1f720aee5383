-- ===== src/Scenegraph/Creation/Numbering.antt =====
-- Creating an entity on a server ends, numbers it and all its children, and announces each of them.
use enki_net.Common.{
  ℕ, zero, suc, ◌+◌, ◌%◌, ◌^◌, ◌≤◌, ◌<◌, ◌≡◌, inl, inr, refl, ap, ◌∙◌, sym, Bool, true, false, ◌&&◌,
  ◌||◌, List, [], ◌∷◌, ◌++◌, some, ◌==◌, ◌===◌, if◌then◌else◌, length, length-append, Outcome, ok,
  ◌>>=◌, arith, Bool-cases, Option-cases,
}
use mathlib.Core.Path.{transport}
use enki_net.Packet.{Packet, of_header}
use enki_net.Packet.Laws.{Writes, Writes-bind}
use enki_net.Packet.Codec.{put_packet}
use enki_net.Packet.Transmission.{new_packet_room}
use enki_net.Packet.RoundTrip.Nested.{put_packet-Writes}
use enki_net.Packet.RoundTrip.Sequences.{vector_bytes}
use enki_net.Entity.{EntityInfo, put_info}
use enki_net.Entity.Laws.{info_bytes, put_info-Writes}
use enki_net.Server.Ids.{count, count-append}
use enki_net.Scenegraph.{Scene, ChildInfo}
use enki_net.Scenegraph.Creation.{
  Peers, own_id, creation_header, creation_packet, create_children, with_owner, announce,
  create_networked,
}
use enki_net.Scenegraph.Creation.Family.{
  Member, creation_bytes, Announces, Announces-append, ids, ids-append, Follows, Follows-append,
  Follows-last, OwnedBy, OwnedBy-append, within, sizes, family_size,
}

-- A creation from the counter `id` that returns, and announces `size` members with the numbers from
-- `id` on, under the entity `top`, all of one owner.
pub record Made (id size top owner : ℕ) (r : Outcome (ℕ × List Packet)) : Type 0 where
  pub sent : List Packet
  pub members : List Member
  pub returns : r ≡ ok (id + size, sent)
  pub announces : Announces sent members
  pub as_many : length members ≡ size
  pub numbered : (x : ℕ) → count x (ids members) ≡ within id (id + size) x
  pub follows : Follows top members
  pub owned : OwnedBy owner members

-- The children of a type have a lower rank, and their spawn packets have room for a header.
abbrev pub Ranked : (List ℕ → ℕ) → ℕ → List ChildInfo → Type 0
Ranked rank n [] = Unit {0}
Ranked rank n (c ∷ cs) = (rank c.type < n) × (8 ≤ length c.spawn_info.bytes) × Ranked rank n cs

Made-none : (id top owner : ℕ) → Made id 0 top owner (ok (id, []))
Made-none id top owner = record {
  sent = [];
  members = [];
  returns = ap (λ (n : ℕ). ok (n, [])) (omega arith);
  announces = tt;
  as_many = refl;
  numbered = λ x. ground arith;
  follows = tt;
  owned = tt;
}

-- The owner that the members of a family get.
abbrev pub family_owner : Bool → Peers → ℕ → ℕ
family_owner ready peers owner = if (owner == 0) && ready then own_id peers else owner

module _ (f : EntityInfo → Packet → ℕ → Outcome (ℕ × List Packet)) (size : List ℕ → List ℕ → ℕ)
    (rank : List ℕ → ℕ) (n owner top owned : ℕ) where
  -- What creating one child does.
  abbrev MakesChild : Type 0
  MakesChild =
      (c : ChildInfo) (id : ℕ)
      → rank c.type < n
      → 8 ≤ length c.spawn_info.bytes
      → id + size c.type c.name < 2 ^ 32
      → Made id (size c.type c.name) top owned (
          f (record { type = c.type; name = c.name; id = 0; owner_id = owner; parent_id = top })
            c.spawn_info id)

  create_children-Made :
      (cs : List ChildInfo) (id : ℕ)
      → MakesChild
      → Ranked rank n cs
      → id + sizes size cs < 2 ^ 32
      → Made id (sizes size cs) top owned (create_children f cs owner top id)
  unfolding create_children
  create_children-Made [] id make ranked fits = Made-none id top owned
  create_children-Made (c ∷ cs) id make ranked fits =
      let a = make c id ranked.0 ranked.1 (omega arith) in
      let b = create_children-Made cs (id + size c.type c.name) make ranked.2 (omega arith) in
      record {
        sent = a.sent ++ b.sent;
        members = a.members ++ b.members;
        returns =
            rw (a.returns, b.returns) (ap (λ (k : ℕ). ok (k, a.sent ++ b.sent)) (omega arith));
        announces = Announces-append a.sent b.sent a.members b.members a.announces b.announces;
        as_many = omega (arith, length-append a.members b.members, a.as_many, b.as_many);
        numbered = λ x. rw (ids-append a.members b.members) (
            ground
              (arith, count-append x (ids a.members) (ids b.members), a.numbered x, b.numbered x));
        follows = Follows-append top a.members b.members a.follows b.follows;
        owned = OwnedBy-append owned a.members b.members a.owned b.owned;
      }

pub creation_packet-Writes :
    (null : Bool) (info : EntityInfo) (spawn : Packet)
    → 8 ≤ length spawn.bytes
    → Writes
        (creation_packet null info spawn)
        (of_header creation_header)
        (creation_bytes info spawn)
unfolding creation_packet
creation_packet-Writes null info spawn room =
    Writes-bind (put_info info (of_header creation_header)) (put_packet null spawn)
      (of_header creation_header) (info_bytes info) (vector_bytes 1 spawn.bytes)
      (put_info-Writes info (of_header creation_header) (new_packet_room creation_header))
      (λ q h. put_packet-Writes null spawn q room h)

with_owner_lem :
    {G : Type 0} (null : Bool) (peers : Peers) (s : Scene G) (info : EntityInfo)
    → ((with_owner null peers s info).id ≡ info.id)
      × ((with_owner null peers s info).parent_id ≡ info.parent_id)
      × ((with_owner null peers s info).owner_id ≡ family_owner s.network_ready peers info.owner_id)
with_owner_lem null peers s info = ground arith

module _ {G : Type 0} (null : Bool) (peers : Peers) (s : Scene G) (ready : s.network_ready ≡ true)
    (serving : peers.server ≡ true) (rank : List ℕ → ℕ)
    (ranked : (t : List ℕ) → Ranked rank (rank t) (s.child_types t)) where
  -- The announcement of one entity.
  announce_lem :
      (info : EntityInfo) (spawn : Packet)
      → 8 ≤ length spawn.bytes
      → (p : Packet) × (announce null peers s info spawn ≡ ok (p ∷ []))
        × Announces (p ∷ []) ((info, spawn) ∷ [])
  unfolding announce
  announce_lem info spawn room =
      let w = creation_packet-Writes null info spawn room in
      (w.0, rw (ready, serving, w.1), (w.2, tt))

  -- The children, with the numbers after that of their parent, and then the parent.
  with_children :
      (info : EntityInfo) (spawn : Packet) (id n : ℕ) (r : Outcome (ℕ × List Packet))
      → info.id ≡ id
      → 8 ≤ length spawn.bytes
      → Made (id + 1) n id (family_owner s.network_ready peers info.owner_id) r
      → Made id (suc n) info.parent_id (family_owner s.network_ready peers info.owner_id) (
          r >>= λ (id', sent).
          announce null peers s (with_owner null peers s info) spawn >>= λ last.
          ok (id', sent ++ last))
  with_children info spawn id n r numbered room kids =
      let own = with_owner null peers s info in
      let same = with_owner_lem null peers s info in
      let (p, sends, announces) = announce_lem own spawn room in
      let m : Member = (own, spawn) in
      record {
        sent = kids.sent ++ p ∷ [];
        members = kids.members ++ m ∷ [];
        returns =
            rw (kids.returns, sends) (ap (λ (k : ℕ). ok (k, kids.sent ++ p ∷ [])) (omega arith));
        announces =
            Announces-append kids.sent (p ∷ []) kids.members (m ∷ []) kids.announces announces;
        as_many = omega (arith, length-append kids.members (m ∷ []), kids.as_many);
        numbered = λ x. rw (ids-append kids.members (m ∷ [])) (
            ground (
              arith,
              count-append x (ids kids.members) (own.id ∷ []),
              kids.numbered x,
              same.0,
              numbered,
            ));
        follows =
            Follows-last info.parent_id kids.members m
              (transport (ap (λ (top : ℕ). Follows top kids.members) (sym (same.0 ∙ numbered)))
                kids.follows)
              same.1;
        owned =
            OwnedBy-append (family_owner s.network_ready peers info.owner_id) kids.members (m ∷ [])
              kids.owned (same.2, tt);
      }

  -- What a name and a type that a builder is registered for come to.
  create_networked_lem :
      (fuel : ℕ) (info : EntityInfo) (spawn : Packet) (id : ℕ) (build : EntityInfo → G)
      → (info.name === []) || (info.type === []) ≡ false
      → s.builders info.type ≡ some build
      → info.id ≡ 0
      → id + 1 < 2 ^ 32
      → create_networked null peers s (suc fuel) info spawn id ≡ (
          create_children
            (create_networked null peers s fuel)
            (s.child_types info.type)
            info.owner_id
            id
            (id + 1)
          >>= λ (id', sent).
              announce null peers s (with_owner null peers s (record info { id = id })) spawn
              >>= λ last. ok (id', sent ++ last))
  unfolding create_networked
  create_networked_lem fuel info spawn id build named known zero_id fits =
      let wraps : (id + 1) % 2 ^ 32 ≡ id + 1 = omega arith in
      let fresh : peers.server && (info.id == 0) ≡ true = rw (serving, zero_id) refl in
      rw (named, known, fresh, wraps) refl

  family_size_lem :
      (fuel : ℕ) (type name : List ℕ) (build : EntityInfo → G)
      → (name === []) || (type === []) ≡ false
      → s.builders type ≡ some build
      → family_size s (suc fuel) type name ≡ suc (sizes (family_size s fuel) (s.child_types type))
  unfolding family_size
  family_size_lem fuel type name build named known = rw (named, known) refl

  -- On a server whose scene is ready, creating an entity with the id 0, whose children are ranked below it, with a
  -- fuel above its rank and room behind the counter of ids, returns; the entity and its children are as many as
  -- `family_size` says, they have the ids from the counter on, each announced once after all of its own children,
  -- all with the same owner.
  pub create_networked-Made :
      (fuel : ℕ) (info : EntityInfo) (spawn : Packet) (id : ℕ)
      → rank info.type < fuel
      → info.id ≡ 0
      → 8 ≤ length spawn.bytes
      → id + family_size s fuel info.type info.name < 2 ^ 32
      → Made id
          (family_size s fuel info.type info.name)
          info.parent_id
          (family_owner s.network_ready peers info.owner_id)
          (create_networked null peers s fuel info spawn id)
  unfolding create_networked family_size
  create_networked-Made zero info spawn id low zero_id room fits = absurd (omega arith)
  create_networked-Made (suc fuel) info spawn id low zero_id room fits =
      elim (Bool-cases ((info.name === []) || (info.type === []))) [
        | inl refused ↦ rw refused (Made-none id info.parent_id _)
        | inr named ↦ elim (Option-cases (s.builders info.type)) [
          | inl unknown ↦ rw (named, unknown) (Made-none id info.parent_id _)
          | inr (build, known) ↦
              let size = family_size_lem fuel info.type info.name build named known in
              let fits' : id + suc (sizes (family_size s fuel) (s.child_types info.type)) < 2 ^ 32 =
                transport (ap (λ (k : ℕ). id + k < 2 ^ 32) size) fits in
              let kids =
                create_children-Made (create_networked null peers s fuel) (family_size s fuel) rank
                  (rank info.type) info.owner_id id
                  (family_owner s.network_ready peers info.owner_id) (s.child_types info.type)
                  (id + 1)
                  (λ c j lower wide more.
                    create_networked-Made fuel
                      (record {
                        type = c.type;
                        name = c.name;
                        id = 0;
                        owner_id = info.owner_id;
                        parent_id = id;
                      })
                      c.spawn_info j (omega arith) refl wide more)
                  (ranked info.type) (omega arith) in
              rw
                (
                  size,
                  create_networked_lem fuel info spawn id build named known zero_id (omega arith),
                )
                (with_children (record info { id = id }) spawn id _ _ refl room kids)
        ]
      ]
