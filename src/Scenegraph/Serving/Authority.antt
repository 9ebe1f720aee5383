-- ===== src/Scenegraph/Serving/Authority.antt =====
-- What the server's handler leaves alone, and whose deletions it passes on.
use enki_net.Common.{
  ℕ, ◌≡◌, refl, sym, ap, ◌∙◌, Bool, List, [], ◌∷◌, Option, none, some, ◌==◌, ==_iff, if◌then◌else◌,
  Outcome, ok, ◌>>=◌, Bool-cases, bind-ok, if-both, inl, inr,
}
use enki_net.Packet.{
  Packet, PacketType, type_code, connected, entity_creation, entity_creation_on_connection,
  entity_update, entity_rpc, entity_deletion,
}
use enki_net.Packet.Codec.{get_number, get_packet}
use enki_net.Entity.{EntityInfo, get_info}
use enki_net.Scenegraph.Routing.{all_except, route_rpc}
use enki_net.Rpc.{RpcManager}
use enki_net.Scenegraph.{Scene, SceneEntity, lookup}
use enki_net.Scenegraph.Client.{Game}
use enki_net.Scenegraph.Creation.{Peers, create_networked, create_networked_entity}
use enki_net.Scenegraph.Serving.{
  Order, to_everyone, send_all_networked_entities, serve_creation, serve_deletion, server_handler,
}

module _ {S G : Type 0} (null : Bool) (game : Game G) (m : RpcManager S) (peers : Peers) (fuel : ℕ)
    (s : Scene G) where
  -- A result, if there is one, in which the scene is `s` but for the counter of ids.
  abbrev Keeps : Outcome (Scene G × List Order) → Type 0
  Keeps r =
      (s' : Scene G) (os : List Order) → r ≡ ok (s', os) → record s' { next_id = s.next_id } ≡ s

  same-Keeps : (os : List Order) → Keeps (ok (s, os))
  same-Keeps os s' os' e =
      let same : s' ≡ s = cc e in ap (λ (t : Scene G). record t { next_id = s.next_id }) same

  chain-Keeps : {A : Type 0} (r : Outcome A) (f : A → List Order) → Keeps (r >>= λ a. ok (s, f a))
  chain-Keeps r f s' os e = let (a, run, last) = bind-ok r _ _ e in same-Keeps (f a) s' os last

  creation-Keeps : (p : Packet) → Keeps (serve_creation null game m peers fuel p s)
  unfolding serve_creation create_networked_entity
  creation-Keeps p s' os e =
      let (read, _, e1) = bind-ok (get_info p) _ _ e in
      let (nested, _, e2) = bind-ok (get_packet null read.1) _ _ e1 in
      let own : EntityInfo = record read.0 { owner_id = p.info.sender_id } in
      let (made, run, e3) =
        bind-ok (create_networked_entity null peers fuel own nested.0 s) _ _ e2 in
      let (counted, _, e4) =
        bind-ok (create_networked null peers s fuel own nested.0 s.next_id) _ _ run in
      let first : s' ≡ made.0 = cc e3 in
      let second : made.0 ≡ record s { next_id = counted.0 } = cc e4 in
      ap (λ (t : Scene G). record t { next_id = s.next_id }) (first ∙ second)

  -- Whatever packet the server's handler gets, if it returns, then it has changed nothing of the scene but
  -- the counter of ids: the entities change when the handlers of the clients get what it sends.
  pub server_handler_kept :
      (p : Packet) (s' : Scene G) (os : List Order)
      → server_handler null game m peers fuel p s ≡ ok (s', os)
      → record s' { next_id = s.next_id } ≡ s
  unfolding server_handler
  server_handler_kept p =
      let is : PacketType → Bool = λ t. p.header.type == type_code t in
      if-both Keeps (is entity_creation) _ _ (creation-Keeps p) (
        if-both Keeps (is entity_creation_on_connection) _ _ (same-Keeps []) (
          if-both Keeps (is connected) _ _
            (chain-Keeps (send_all_networked_entities null game m peers fuel p.info.sender_id s)
              (λ os. os))
            (if-both Keeps (is entity_update) _ _
              (same-Keeps ((all_except p.info.sender_id, p) ∷ []))
              (if-both Keeps (is entity_rpc) _ _ (chain-Keeps (route_rpc m s p) (λ o. o ∷ [])) (
                if-both Keeps (is entity_deletion) _ _
                  (chain-Keeps (serve_deletion null game m peers fuel p s) (λ os. os))
                  (same-Keeps []))))))

  passed_on :
      (found : Option (SceneEntity G)) (q : Packet) (sender : ℕ) (o : Order) (os : List Order)
      → (elim found [
        | none ↦ ok []
        | some e ↦ ok (if e.info.owner_id == sender then to_everyone q ∷ [] else [])
      ])
        ≡ ok (o ∷ os)
      → (e : SceneEntity G) × (found ≡ some e)
        × (e.info.owner_id ≡ sender)
        × (o ∷ os ≡ to_everyone q ∷ [])
  passed_on none q sender o os h = let same : [] ≡ o ∷ os = cc h in absurd (cc same)
  passed_on (some e) q sender o os h = elim (Bool-cases (e.info.owner_id == sender)) [
    | inl own ↦
        let same : ok (to_everyone q ∷ []) ≡ ok (o ∷ os) = rw own at h in
        (e, refl, (==_iff e.info.owner_id sender).0 own, cc same)
    | inr other ↦
        let nothing : List Order = [] in
        let same : ok nothing ≡ ok (o ∷ os) = rw other at h in
        let none_sent : nothing ≡ o ∷ os = cc same in absurd (cc none_sent)
  ]

  handler_deletion_lem :
      (p : Packet)
      → p.header.type ≡ type_code entity_deletion
      → server_handler null game m peers fuel p s
        ≡ (serve_deletion null game m peers fuel p s >>= λ os. ok (s, os))
  unfolding server_handler
  handler_deletion_lem p type = rw type refl

  -- If the server's handler sends anything for a packet of type ENTITY_DELETION, then the packet names an entity
  -- that is there and that the sender of the packet owns, and the packet is sent once, to everyone.
  pub server_handler_deletion :
      (p : Packet) (s' : Scene G) (o : Order) (os : List Order)
      → p.header.type ≡ type_code entity_deletion
      → server_handler null game m peers fuel p s ≡ ok (s', o ∷ os)
      → (id : ℕ) × (q : Packet) × (e : SceneEntity G) × (get_number 4 p ≡ ok (id, q))
        × (lookup id s.entities ≡ some e)
        × (e.info.owner_id ≡ p.info.sender_id)
        × (o ∷ os ≡ to_everyone q ∷ [])
  unfolding serve_deletion
  server_handler_deletion p s' o os type e =
      let (sent, served, e1) =
        bind-ok (serve_deletion null game m peers fuel p s) _ _
          (sym (handler_deletion_lem p type) ∙ e) in
      let all : sent ≡ o ∷ os = cc e1 in
      let (read, got, e2) = bind-ok (get_number 4 p) _ _ served in
      let owned =
        passed_on (lookup read.0 s.entities) read.1 p.info.sender_id o os (e2 ∙ ap ok all) in
      (read.0, read.1, owned.0, got, owned.1, owned.2, owned.3)
