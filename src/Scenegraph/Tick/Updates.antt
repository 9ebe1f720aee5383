-- ===== src/Scenegraph/Tick/Updates.antt =====
-- What the packets of a network tick carry, and what a client makes of them.
use enki_net.Common.{
  ℕ, ◌+◌, ◌%◌, ◌^◌, ◌≤◌, ◌<◌, ◌≡◌, refl, ap, ◌∙◌, true, false, List, [], ◌∷◌, ◌++◌, length, Outcome,
  ok, ◌>>=◌, arith, sym, Bool-cases, inl, inr, leb→le, le→leb, ltb→lt, lt→ltb, ==_iff, ltb, ◌==◌,
  ◌⊎◌, some, Bool, ◌&&◌,
}
use enki_net.Packet.{
  Packet, PacketHeader, of_header, clear, type_code, entity_update, set_header, sent_bytes, of_data,
  serialize,
}
use enki_net.Packet.Codec.{put_number}
use enki_net.Packet.Laws.{Writes, Ready, Writes-bind}
use enki_net.Packet.Channel.{Begun, Arrives, Arrives-Begun}
use enki_net.Entity.{EntityInfo, put_info, is_owner, is_negative}
use enki_net.Entity.Laws.{info_bytes, put_info-Writes}
use enki_net.Server.{stamp_time}
use enki_net.Scenegraph.{Scene, SceneEntity}
use enki_net.Scenegraph.Client.{Game}
use enki_net.Scenegraph.Tick.{update_header, is_due, send_updates, on_network_tick}

-- A cleared packet with the eight bytes for the header that it has lost.
abbrev restored : Packet → Packet
restored p = record (clear p) { bytes = 0 ∷ 0 ∷ 0 ∷ 0 ∷ 0 ∷ 0 ∷ 0 ∷ 0 ∷ [] }

-- The first write to a cleared packet makes room for the header again.
put_number-clear : (n : ℕ) (p : Packet) → put_number 4 n (clear p) ≡ put_number 4 n (restored p)
unfolding put_number clear serialize
put_number-clear n p = refl

put_info-clear : (e : EntityInfo) (p : Packet) → put_info e (clear p) ≡ put_info e (restored p)
unfolding put_info
put_info-clear e p = rw (put_number-clear e.id p) refl

both : (a b : Bool) → a && b ≡ true → (a ≡ true) × (b ≡ true)
both true b h = (refl, h)
both false b h = absurd (cc h)

module _ {G : Type 0} (game : Game G) (client now : ℕ) (state : G → List ℕ) where
  -- The receiver of the packet finds the info and the state of the entity in it.
  abbrev pub IsUpdate : SceneEntity G → Packet → Type 0
  IsUpdate e q =
      (block : List ℕ) × (a : Packet) × (sent_bytes q ≡ ok block)
      × (of_data block ≡ ok a)
      × (a.header.type ≡ type_code entity_update)
      × Ready a (info_bytes e.info ++ state e.self)

  -- This program owns the entity: it is local, or its owner is the client.
  abbrev pub IsOwn : EntityInfo → Type 0
  IsOwn info = (2 ^ 31 ≤ info.id) ⊎ (info.owner_id ≡ client)

  -- The program owns the entity, which is sent once in as many ticks as its rate says, and never for the rate 0.
  abbrev pub IsTurn : ℕ → SceneEntity G → Type 0
  IsTurn ticks e =
      IsOwn e.info
      × (0 < game.network_tick_rate e.self)
      × (ticks % game.network_tick_rate e.self ≡ 0)

  -- The packets are the updates of the entities whose turn it is, in order.
  abbrev pub Updates : ℕ → List (ℕ × SceneEntity G) → List Packet → Type 0
  Updates ticks [] qs = qs ≡ []
  Updates ticks ((k, e) ∷ rest) qs =
      (¬ IsTurn ticks e × Updates ticks rest qs)
      ⊎ (IsTurn ticks e
          × (q : Packet) × (later : List Packet) × (qs ≡ q ∷ later)
          × IsUpdate e q
          × Updates ticks rest later)

  is_owner-IsOwn : (info : EntityInfo) → is_owner (some client) info ≡ true → IsOwn info
  unfolding is_owner
  is_owner-IsOwn info h = elim (Bool-cases (is_negative info.id)) [
    | inl local ↦ inl (leb→le (2 ^ 31) info.id local)
    | inr shared ↦ inr (sym ((==_iff client info.owner_id).0 (rw shared at h)))
  ]

  IsOwn-is_owner : (info : EntityInfo) → IsOwn info → is_owner (some client) info ≡ true
  unfolding is_owner
  IsOwn-is_owner info (inl local) = rw (le→leb (2 ^ 31) info.id local) refl
  IsOwn-is_owner info (inr own) = elim (Bool-cases (is_negative info.id)) [
    | inl local ↦ rw local refl
    | inr shared ↦ rw shared ((==_iff client info.owner_id).1 (sym own))
  ]

  is_due-IsTurn :
      (ticks : ℕ) (e : SceneEntity G) → is_due game client now ticks e ≡ true → IsTurn ticks e
  unfolding is_due
  is_due-IsTurn ticks e h =
      let rate = game.network_tick_rate e.self in
      let (own_rate, turn) =
        both (is_owner (some client) e.info && ltb 0 rate) (ticks % rate == 0) h in
      let (own, some_rate) = both (is_owner (some client) e.info) (ltb 0 rate) own_rate in
      (is_owner-IsOwn e.info own, ltb→lt 0 rate some_rate, (==_iff (ticks % rate) 0).0 turn)

  IsTurn-is_due :
      (ticks : ℕ) (e : SceneEntity G) → IsTurn ticks e → is_due game client now ticks e ≡ true
  unfolding is_due
  IsTurn-is_due ticks e (own, some_rate, turn) =
      let rate = game.network_tick_rate e.self in
      rw (IsOwn-is_owner e.info own, lt→ltb 0 rate some_rate, (==_iff (ticks % rate) 0).1 turn) refl

  -- serializeOnTick appends the state.
  abbrev pub WritesState : Type 0
  WritesState =
      (g : G) (q : Packet)
      → q.bytes_written ≤ length q.bytes
      → Writes (game.serialize_on_tick g q) q (state g)

  one-IsUpdate :
      (e : SceneEntity G) (p : Packet)
      → now < 2 ^ 32
      → WritesState
      → p.header.type ≡ type_code entity_update
      → (q : Packet) × (put_info e.info (clear p) >>= game.serialize_on_tick e.self ≡ ok q)
        × IsUpdate e (stamp_time now q)
        × ((stamp_time now q).header.type ≡ type_code entity_update)
  one-IsUpdate e p fits writes typed = (
    w.0,
    ap (λ (r : Outcome Packet). r >>= game.serialize_on_tick e.self) (put_info-clear e.info p)
        ∙ w.1,
    (
      a.block,
      a.packet,
      a.sent,
      a.built,
      ap (λ (h : PacketHeader). h.type) a.same_header ∙ kept,
      a.ready,
    ),
    unfold set_header in kept,
  )
    where
      base : Packet
      base = restored p

      bytes : List ℕ
      bytes = info_bytes e.info ++ state e.self

      w : Writes (put_info e.info base >>= game.serialize_on_tick e.self) base bytes
      w =
          Writes-bind (put_info e.info base) (game.serialize_on_tick e.self) base
            (info_bytes e.info) (state e.self)
            (put_info-Writes e.info base (unfold clear in omega arith)) (writes e.self)

      kept : w.0.header.type ≡ type_code entity_update
      kept = ap (λ (h : PacketHeader). h.type) w.2.same_header ∙ (unfold clear in typed)

      begun : Begun base
      begun = unfold clear in (refl, refl)

      a : Arrives w.0 (record { type = w.0.header.type; time_sent = now }) bytes
      a = Arrives-Begun base bytes w.0 _ begun w.2 fits

  send_updates-Updates :
      (ticks : ℕ) (p : Packet) (es : List (ℕ × SceneEntity G))
      → now < 2 ^ 32
      → WritesState
      → p.header.type ≡ type_code entity_update
      → (sent : List Packet) × (send_updates game client now ticks p es ≡ ok sent)
        × Updates ticks es sent
  unfolding send_updates
  send_updates-Updates ticks p [] fits writes typed = ([], refl, refl)
  send_updates-Updates ticks p ((k, e) ∷ rest) fits writes typed =
      let u = one-IsUpdate e p fits writes typed in
      let skipped = send_updates-Updates ticks p rest fits writes typed in
      let later = send_updates-Updates ticks (stamp_time now u.0) rest fits writes u.3 in
      elim (is_due game client now ticks e)
          as (λ due.
            is_due game client now ticks e ≡ due
            → (sent : List Packet) × (elim due [
              | false ↦ send_updates game client now ticks p rest
              | true ↦ put_info e.info (clear p) >>= game.serialize_on_tick e.self >>= λ q.
                  send_updates game client now ticks (stamp_time now q) rest >>= λ sent'.
                  ok (stamp_time now q ∷ sent')
            ]
                ≡ ok sent)
              × Updates ticks ((k, e) ∷ rest) sent) [
                | false ↦ λ other. (
                  skipped.0,
                  skipped.1,
                  inl ((λ turn. absurd (cc (IsTurn-is_due ticks e turn, other))), skipped.2),
                )
                | true ↦ λ due. (
                  stamp_time now u.0 ∷ later.0,
                  rw (u.1, later.1) refl,
                  inr (is_due-IsTurn ticks e due, stamp_time now u.0, later.0, refl, u.2, later.2),
                )
              ]
        refl

  -- If serializeOnTick of the game's entities appends their state to every packet with its written bytes in the buffer,
  -- then a network tick returns, changes nothing of the scene but the count of ticks, and sends, in the order of the map,
  -- one packet for each entity that this program owns and whose turn it is; the packet arrives with the type
  -- ENTITY_UPDATE, and a reader finds the info and the state of the entity in it, although the loop uses one packet
  -- again and again.
  pub on_network_tick-Updates :
      (s : Scene G)
      → now < 2 ^ 32
      → WritesState
      → (sent : List Packet) × (on_network_tick game client now s
          ≡ ok (sent, record s { total_network_ticks = (s.total_network_ticks + 1) % 2 ^ 32 }))
        × Updates ((s.total_network_ticks + 1) % 2 ^ 32) s.entities sent
  unfolding on_network_tick of_header
  on_network_tick-Updates s fits writes =
      let u =
        send_updates-Updates ((s.total_network_ticks + 1) % 2 ^ 32) (of_header update_header)
          s.entities fits writes refl in
      (u.0, rw u.1 refl, u.2)
