-- ===== src/Server/Ids.antt =====
-- Client ids: no two clients that are connected at the same time have the same id, as long as no
-- client sends a packet of type DISCONNECTED itself and no handler throws.
use enki_net.Common.{
  ℕ, ◌+◌, ◌%◌, ◌^◌, ◌≤◌, ◌<◌, ◌≡◌, ◌≢◌, refl, ap, ◌∙◌, List, [], ◌∷◌, ◌++◌, ◌&&◌, leb, ltb, ◌==◌,
  if◌then◌else◌, arith, Option, none, Exception,
}
use enki_net.Packet.{Packet, type_code, disconnected, of_header}
use enki_net.Server.{ClientIds, new_ids, get_next_uid, release_id, drain, connection_packet}

abbrev pub count : ℕ → List ℕ → ℕ
count x [] = 0
count x (y ∷ ys) = (if y == x then 1 else 0) + count x ys

pub count-append : (x : ℕ) (ys zs : List ℕ) → count x (ys ++ zs) ≡ count x ys + count x zs
count-append x [] zs = omega arith
count-append x (y ∷ ys) zs = omega (arith, count-append x ys zs)

-- Packets that say that `x` is disconnected.
abbrev pub leaving : ℕ → List Packet → ℕ
leaving x [] = 0
leaving x (p ∷ ps) =
    (if (p.header.type == type_code disconnected) && (p.info.sender_id == x) then 1 else 0)
    + leaving x ps

leaving-append : (x : ℕ) (ps qs : List Packet) → leaving x (ps ++ qs) ≡ leaving x ps + leaving x qs
leaving-append x [] qs = omega arith
leaving-append x (p ∷ ps) qs = omega (arith, leaving-append x ps qs)

-- A handler that throws nothing.
abbrev pub returning : {S : Type 0} → (Packet → S → S) → Packet → S → S × Option Exception
returning handle p st = (handle p st, none)

-- A server as far as ids matter: the ids it can give, the clients that are connected, and the
-- packets that wait in its queue.
pub record System : Type 0 where
  pub ids : ClientIds
  pub clients : List ℕ
  pub queue : List Packet

abbrev pub init : System
init = record { ids = new_ids; clients = []; queue = [] }

-- The network thread accepts a client, or hears that one is gone, or gets a packet from one; the main
-- thread runs the handlers over the queue, none of which throws.
pub data Step (s : System) : System → Type 0 where
  accept :
      s.ids.next_uid + 1 < 2 ^ 32
      → Step s
          (record s { ids = (get_next_uid s.ids).1; clients = (get_next_uid s.ids).0 ∷ s.clients })
  leave :
      (xs : List ℕ) (c : ℕ) (ys : List ℕ) (now : ℕ)
      → s.clients ≡ xs ++ c ∷ ys
      → Step s (record s {
        clients = xs ++ ys;
        queue = s.queue ++ connection_packet (type_code disconnected) c now ∷ [];
      })
  receive :
      (p : Packet)
      → p.header.type ≢ type_code disconnected
      → Step s (record s { queue = s.queue ++ p ∷ [] })
  update : Step s (record s {
    ids = (drain (returning release_id) s.queue s.ids).1;
    queue = (drain (returning release_id) s.queue s.ids).0;
  })

pub data Reach : System → Type 0 where
  start : Reach init
  next : {s t : System} → Reach s → Step s t → Reach t

-- Whether an id was given out before.
abbrev pub given : ℕ → ℕ → ℕ
given bound x = if leb 2 x && ltb x bound then 1 else 0

-- Every id is at one place at most: with a client, on its way back, or free.
abbrev pub OnePlace : System → Type 0
OnePlace s =
    (x : ℕ)
    → count x s.clients + leaving x s.queue + count x s.ids.free_ids ≤ given s.ids.next_uid x

release-free :
    (p : Packet) (ids : ClientIds) (x : ℕ)
    → (count x (release_id p ids).free_ids ≡ leaving x (p ∷ []) + count x ids.free_ids)
      × ((release_id p ids).next_uid ≡ ids.next_uid)
unfolding release_id
release-free p ids x = ground (arith, count-append x ids.free_ids (p.info.sender_id ∷ []))

drain-free :
    (ps : List Packet) (ids : ClientIds) (x : ℕ)
    → (count x (drain (returning release_id) ps ids).1.free_ids
        ≡ leaving x ps + count x ids.free_ids)
      × ((drain (returning release_id) ps ids).1.next_uid ≡ ids.next_uid)
unfolding drain
drain-free [] ids x = (omega arith, refl)
drain-free (p ∷ ps) ids x =
    let one = release-free p ids x in
    let rest = drain-free ps (release_id p ids) x in (omega (arith, one.0, rest.0), rest.1 ∙ one.1)

drain-returning :
    (ps : List Packet) (ids : ClientIds) → (drain (returning release_id) ps ids).0 ≡ []
unfolding drain
drain-returning [] ids = refl
drain-returning (p ∷ ps) ids = drain-returning ps (release_id p ids)

fresh_id :
    (ids : ClientIds)
    → ids.free_ids ≡ []
    → get_next_uid ids ≡ (ids.next_uid, record ids { next_uid = (ids.next_uid + 1) % 2 ^ 32 })
unfolding get_next_uid
fresh_id ids e = ground arith

freed_id :
    (ids : ClientIds) (f : ℕ) (fs : List ℕ)
    → ids.free_ids ≡ f ∷ fs
    → get_next_uid ids ≡ (f, record ids { free_ids = fs })
unfolding get_next_uid
freed_id ids f fs e = ground arith

accept-OnePlace :
    (s : System) (free : List ℕ)
    → s.ids.free_ids ≡ free
    → 2 ≤ s.ids.next_uid
    → s.ids.next_uid + 1 < 2 ^ 32
    → OnePlace s
    → OnePlace
        (record s { ids = (get_next_uid s.ids).1; clients = (get_next_uid s.ids).0 ∷ s.clients })
accept-OnePlace s [] e two h inv x =
    rw (fresh_id s.ids e, e) (ground (arith, inv x, ap (count x) e))
accept-OnePlace s (f ∷ fs) e two h inv x =
    rw (freed_id s.ids f fs e) (omega (arith, inv x, ap (count x) e))

-- The counter of ids only grows, from 2.
abbrev Counts : System → Type 0
Counts s = 2 ≤ s.ids.next_uid

accept-Counts :
    (ids : ClientIds) (free : List ℕ)
    → ids.free_ids ≡ free
    → 2 ≤ ids.next_uid
    → ids.next_uid + 1 < 2 ^ 32
    → 2 ≤ (get_next_uid ids).1.next_uid
accept-Counts ids [] e two h = rw (fresh_id ids e) (omega (arith, two, h))
accept-Counts ids (f ∷ fs) e two h = rw (freed_id ids f fs e) two

leave-OnePlace :
    (s : System) (xs : List ℕ) (c : ℕ) (ys : List ℕ) (now : ℕ)
    → s.clients ≡ xs ++ c ∷ ys
    → OnePlace s
    → OnePlace (record s {
      clients = xs ++ ys;
      queue = s.queue ++ connection_packet (type_code disconnected) c now ∷ [];
    })
unfolding connection_packet of_header
leave-OnePlace s xs c ys now e inv x =
    let gone = connection_packet (type_code disconnected) c now in
    omega (
      arith,
      inv x,
      ap (count x) e,
      count-append x xs (c ∷ ys),
      count-append x xs ys,
      leaving-append x s.queue (gone ∷ []),
    )

Step-OnePlace : (s t : System) → Step s t → Counts s × OnePlace s → Counts t × OnePlace t
Step-OnePlace s _ (accept h) inv = (
  accept-Counts s.ids s.ids.free_ids refl inv.0 h,
  accept-OnePlace s s.ids.free_ids refl inv.0 h inv.1,
)
Step-OnePlace s _ (leave xs c ys now e) inv = (inv.0, leave-OnePlace s xs c ys now e inv.1)
Step-OnePlace s _ (receive p h) inv =
    (inv.0, λ x. ground (arith, inv.1 x, leaving-append x s.queue (p ∷ [])))
Step-OnePlace s _ update inv =
    let freed = drain-free s.queue s.ids in
    (
      rw (freed 0).1 inv.0,
      λ x. rw ((freed x).1, (freed x).0, drain-returning s.queue s.ids) (omega (arith, inv.1 x)),
    )

Reach-OnePlace : (s : System) → Reach s → Counts s × OnePlace s
Reach-OnePlace _ start = (omega arith, λ x. omega arith)
Reach-OnePlace t (next {s} r step) = Step-OnePlace s t step (Reach-OnePlace s r)

-- In every state that is reached while no client sends a packet of type DISCONNECTED and no handler throws, and before
-- the 32-bit counter is used up, each id is held by one connected client at most, and while a client holds it, it is 2
-- or more and below the counter, is not free, and is not about to be freed by a packet in the queue.
pub Reach-count :
    (s : System)
    → Reach s
    → (x : ℕ)
    → (count x s.clients ≤ 1)
      × (1 ≤ count x s.clients
          → (2 ≤ x) × (x < s.ids.next_uid) × (count x s.ids.free_ids ≡ 0) × (leaving x s.queue ≡ 0))
Reach-count s r x =
    let place = (Reach-OnePlace s r).1 x in (ground (arith, place), ground (arith, place))
