-- ===== src/Scenegraph/Creation/Family.antt =====
-- What is announced when an entity and its children are created: the members of a family.
use enki_net.Common.{
  ℕ, zero, suc, ◌+◌, ◌<◌, ◌≡◌, ◌⊎◌, inl, inr, refl, ap, ◌&&◌, ◌||◌, List, [], ◌∷◌, ◌++◌, none, some,
  leb, ltb, ==_refl, ◌===◌, if◌then◌else◌, arith,
}
use enki_net.Packet.{Packet}
use enki_net.Packet.Channel.{Carries}
use enki_net.Packet.RoundTrip.Sequences.{vector_bytes}
use enki_net.Entity.{EntityInfo}
use enki_net.Entity.Laws.{info_bytes}
use enki_net.Server.Ids.{count, count-append}
use enki_net.Scenegraph.{Scene, ChildInfo}
use enki_net.Scenegraph.Creation.{creation_header}

-- A member with its spawn packet.
abbrev pub Member : Type 0
Member = EntityInfo × Packet

-- What the packet of a member carries.
abbrev pub creation_bytes : EntityInfo → Packet → List ℕ
creation_bytes info spawn = info_bytes info ++ vector_bytes 1 spawn.bytes

-- The packets are those of the members, in order.
abbrev pub Announces : List Packet → List Member → Type 0
Announces [] [] = Unit {0}
Announces [] (m ∷ ms) = ⊥
Announces (p ∷ ps) [] = ⊥
Announces (p ∷ ps) (m ∷ ms) = Carries creation_header (creation_bytes m.0 m.1) p × Announces ps ms

abbrev pub ids : List Member → List ℕ
ids [] = []
ids (m ∷ ms) = m.0.id ∷ ids ms

-- Each member has the parent `top` or a parent that comes later.
abbrev pub Follows : ℕ → List Member → Type 0
Follows top [] = Unit {0}
Follows top (m ∷ ms) = ((m.0.parent_id ≡ top) ⊎ (0 < count m.0.parent_id (ids ms))) × Follows top ms

abbrev pub OwnedBy : ℕ → List Member → Type 0
OwnedBy owner [] = Unit {0}
OwnedBy owner (m ∷ ms) = (m.0.owner_id ≡ owner) × OwnedBy owner ms

-- Whether a number lies in a range.
abbrev pub within : ℕ → ℕ → ℕ → ℕ
within lo hi x = if leb lo x && ltb x hi then 1 else 0

-- How many entities the creation of one makes: it and, for each of its children, as many again.
abbrev pub sizes : (List ℕ → List ℕ → ℕ) → List ChildInfo → ℕ
sizes size [] = 0
sizes size (c ∷ cs) = size c.type c.name + sizes size cs

unfoldable pub family_size : {G : Type 0} → Scene G → ℕ → List ℕ → List ℕ → ℕ
family_size s zero type name = 0
family_size s (suc fuel) type name =
    let more = sizes (family_size s fuel) (s.child_types type) in
    if (name === []) || (type === [])
    then 0
    else elim (s.builders type) [ none ↦ 0 | some build ↦ suc more ]

pub ids-append : (ms ns : List Member) → ids (ms ++ ns) ≡ ids ms ++ ids ns
ids-append [] ns = refl
ids-append (m ∷ ms) ns = ap (◌∷◌ m.0.id) (ids-append ms ns)

pub Announces-append :
    (ps qs : List Packet) (ms ns : List Member)
    → Announces ps ms
    → Announces qs ns
    → Announces (ps ++ qs) (ms ++ ns)
Announces-append [] qs [] ns h g = g
Announces-append [] qs (m ∷ ms) ns h g = elim h [ ]
Announces-append (p ∷ ps) qs [] ns h g = elim h [ ]
Announces-append (p ∷ ps) qs (m ∷ ms) ns h g = (h.0, Announces-append ps qs ms ns h.1 g)

pub Follows-append :
    (top : ℕ) (ms ns : List Member) → Follows top ms → Follows top ns → Follows top (ms ++ ns)
Follows-append top [] ns h g = g
Follows-append top (m ∷ ms) ns h g = (
  elim h.0 [
    | inl e ↦ inl e
    | inr l ↦
        inr (rw (ids-append ms ns) (omega (arith, l, count-append m.0.parent_id (ids ms) (ids ns))))
  ],
  Follows-append top ms ns h.1 g,
)

-- The children of `m` before `m`.
pub Follows-last :
    (top : ℕ) (ms : List Member) (m : Member)
    → Follows m.0.id ms
    → m.0.parent_id ≡ top
    → Follows top (ms ++ m ∷ [])
Follows-last top [] m h e = (inl e, tt)
Follows-last top (n ∷ ms) m h e = (
  elim h.0 [
    | inl at ↦ inr (
        rw (ids-append ms (m ∷ []), at)
          (omega (arith, count-append m.0.id (ids ms) (m.0.id ∷ []), one m.0.id)))
    | inr l ↦ inr (
        rw (ids-append ms (m ∷ []))
          (omega (arith, l, count-append n.0.parent_id (ids ms) (m.0.id ∷ []))))
  ],
  Follows-last top ms m h.1 e,
)
  where
    one : (x : ℕ) → count x (x ∷ []) ≡ 1
    one x = rw (==_refl x) refl

pub OwnedBy-append :
    (owner : ℕ) (ms ns : List Member)
    → OwnedBy owner ms
    → OwnedBy owner ns
    → OwnedBy owner (ms ++ ns)
OwnedBy-append owner [] ns h g = g
OwnedBy-append owner (m ∷ ms) ns h g = (h.0, OwnedBy-append owner ms ns h.1 g)
