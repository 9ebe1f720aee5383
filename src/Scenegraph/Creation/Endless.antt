-- ===== src/Scenegraph/Creation/Endless.antt =====
-- Creating an entity whose type is among its own children.
use enki_net.Common.{
  ℕ, zero, suc, ◌≡◌, refl, ap, ◌∙◌, Bool, false, List, [], ◌∷◌, some, ◌+◌, ◌%◌, ◌^◌, ◌==◌, ◌&&◌,
  if◌then◌else◌, ◌===◌, fault,
}
use enki_net.Packet.{Packet}
use enki_net.Entity.{EntityInfo}
use enki_net.Scenegraph.{Scene, ChildInfo}
use enki_net.Scenegraph.Creation.{Peers, create_children, create_networked}

-- If the first child that is registered for a type has this type and a name, then createNetworkedEntity
-- for the type never ends, whatever the network is: it fills every stack.
pub create_networked_own_child :
    {G : Type 0} (null : Bool) (peers : Peers) (s : Scene G) (c : ChildInfo) (cs : List ChildInfo)
    (build : EntityInfo → G) (fuel : ℕ) (info : EntityInfo) (spawn : Packet) (id : ℕ)
    → s.child_types info.type ≡ c ∷ cs
    → c.type ≡ info.type
    → (c.name === []) ≡ false
    → (info.type === []) ≡ false
    → s.builders info.type ≡ some build
    → (info.name === []) ≡ false
    → create_networked null peers s fuel info spawn id ≡ fault
unfolding create_networked create_children
create_networked_own_child null peers s c cs build zero info spawn id own same named_child typed
      known named =
    refl
create_networked_own_child null peers s c cs build (suc fuel) info spawn id own same named_child
      typed known named =
    let fresh : Bool = peers.server && (info.id == 0) in
    let own_id' : ℕ = if fresh then id else info.id in
    let child : EntityInfo = record {
      type = c.type;
      name = c.name;
      id = 0;
      owner_id = info.owner_id;
      parent_id = own_id';
    } in
    let again =
      create_networked_own_child null peers s c cs build fuel child c.spawn_info
        (if fresh then (id + 1) % 2 ^ 32 else id) (ap s.child_types same ∙ own) refl named_child
        (rw same typed) (rw same known) named_child in
    rw (known, named, typed) (rw own (rw again refl))
