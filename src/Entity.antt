-- ===== src/Entity.antt =====
-- src/EnkiNet/Entity.hpp: what identifies an entity, its codec, and ownership. An EntityID is an
-- int32_t, kept as its bit pattern below 2 ^ 32; names and types are byte strings.
pub mod Laws
pub mod Defaults
use enki_net.Common.{
  ℕ, List, ◌^◌, Bool, true, false, Option, none, some, ◌&&◌, leb, ◌==◌, ◌===◌, if◌then◌else◌,
  Outcome, ok, ◌>>=◌,
}
use enki_net.Packet.{Packet}
use enki_net.Packet.Codec.{put_number, get_number, put_string, get_string}

pub record EntityInfo : Type 0 where
  pub type : List ℕ
  pub name : List ℕ
  pub id : ℕ
  pub owner_id : ℕ
  pub parent_id : ℕ

-- The test `ID < 0` on an int32_t.
abbrev pub is_negative : ℕ → Bool
is_negative id = leb (2 ^ 31) id

-- operator==
unfoldable pub info_eq : EntityInfo → EntityInfo → Bool
info_eq a b =
    a.id == b.id
    && a.name === b.name
    && a.type === b.type
    && a.owner_id == b.owner_id
    && a.parent_id == b.parent_id

-- operator<<(Packet&, EntityInfo&)
unfoldable pub put_info : EntityInfo → Packet → Outcome Packet
unfolding put_number put_string
put_info e p = do
  p1 ← put_number 4 e.id p
  p2 ← put_number 4 e.owner_id p1
  p3 ← put_string e.type p2
  p4 ← put_string e.name p3
  put_number 4 e.parent_id p4

-- operator>>(Packet&, EntityInfo&)
unfoldable pub get_info : Packet → Outcome (EntityInfo × Packet)
unfolding get_number get_string
get_info p = do
  (id, p1) ← get_number 4 p
  (owner, p2) ← get_number 4 p1
  (type, p3) ← get_string p2
  (name, p4) ← get_string p3
  (parent, p5) ← get_number 4 p4
  ok (record { type = type; name = name; id = id; owner_id = owner; parent_id = parent }, p5)

-- Entity::isOwner, given the id of the network manager's client, if there is one.
unfoldable pub is_owner : Option ℕ → EntityInfo → Bool
is_owner client e =
    if is_negative e.id
    then true
    else elim client [ none ↦ e.owner_id == 0 | some own ↦ own == e.owner_id ]
