-- ===== src/Server/Sends.antt =====
-- Who gets a packet that a server of src/EnkiNet/Networking sends, and what block of bytes it gets. A
-- client gets what is sent to it while it is connected; the local client of a host, whose id is 1,
-- always gets it.
use enki_net.Common.{
  ℕ, ◌≤◌, ◌≡◌, ◌≢◌, refl, sym, ap, append-nil, append_assoc, ◌∙◌, List, [], ◌∷◌, ◌++◌, Bool, true,
  false, not, ◌&&◌, ◌||◌, ◌==◌, ==_ne, Bool-cases, inl, inr, le→ltb, ==_sym, &&-true, ℕ_discrete,
  if◌then◌else◌, length, take, length-poke, Outcome, ok, ◌>>=◌, arith,
}
use enki_net.Packet.{
  Packet, sent_bytes, set_header, PacketHeader, header_bytes, reset_read_position,
}
use enki_net.Server.{Effect, to_one, to_all_if, to_local, stamp_time, broadcast}
use enki_net.Server.Standard
use enki_net.Server.Host

abbrev pub member : ℕ → List ℕ → Bool
member x [] = false
member x (c ∷ cs) = (c == x) || member x cs

-- What one effect brings to the client `x`.
abbrev brings : List ℕ → ℕ → Effect → List (List ℕ)
brings clients x (to_one c block) = if member x clients && (c == x) then block ∷ [] else []
brings clients x (to_all_if test block) = if member x clients && test x then block ∷ [] else []
brings clients x (to_local p) = if x == 1 then take p.bytes_written p.bytes ∷ [] else []

abbrev pub gets : List ℕ → ℕ → List Effect → List (List ℕ)
gets clients x [] = []
gets clients x (e ∷ es) = brings clients x e ++ gets clients x es

-- The block that is sent for a packet at a time.
abbrev pub stamped : ℕ → Packet → List ℕ
stamped now p = let q = stamp_time now p in take q.bytes_written q.bytes

-- The send returns, each client that `who` holds of gets the stamped packet once, and no other client
-- gets anything.
abbrev pub Sends : ℕ → List ℕ → (ℕ → Bool) → Packet → Outcome (List Effect) → Type 0
Sends now clients who p sent =
    (es : List Effect) × (sent ≡ ok es)
    × ((x : ℕ) → gets clients x es ≡ (if who x then stamped now p ∷ [] else []))

sent_bytes_inside :
    (q : Packet)
    → q.bytes_written ≤ length q.bytes
    → sent_bytes q ≡ ok (take q.bytes_written q.bytes)
unfolding sent_bytes
sent_bytes_inside q h = rw (le→ltb (length q.bytes) q.bytes_written h)

sent_bytes-stamp_time :
    (now : ℕ) (p : Packet)
    → p.bytes_written ≤ length p.bytes
    → sent_bytes (stamp_time now p) ≡ ok (stamped now p)
unfolding set_header header_bytes
sent_bytes-stamp_time now p h =
    let head : PacketHeader = record { type = p.header.type; time_sent = now } in
    sent_bytes_inside (stamp_time now p) (omega (arith, h, length-poke p.bytes (header_bytes head)))

gets-append :
    (clients : List ℕ) (x : ℕ) (es fs : List Effect)
    → gets clients x (es ++ fs) ≡ gets clients x es ++ gets clients x fs
gets-append clients x [] fs = refl
gets-append clients x (e ∷ es) fs =
    ap (◌++◌ (brings clients x e)) (gets-append clients x es fs)
    ∙ sym (append_assoc (brings clients x e) (gets clients x es) (gets clients x fs))

-- A broadcast returns and brings the block to the connected clients that pass the test.
Broadcasts : List ℕ → (ℕ → Bool) → List ℕ → Outcome (List Effect) → Type 0
Broadcasts clients test block sent =
    (es : List Effect) × (sent ≡ ok es)
    × ((x : ℕ) → gets clients x es ≡ (if member x clients && test x then block ∷ [] else []))

broadcast-Broadcasts :
    (clients : List ℕ) (test : ℕ → Bool) (q : Packet) (block : List ℕ)
    → sent_bytes q ≡ ok block
    → Broadcasts clients test block (broadcast clients test q)
unfolding broadcast Broadcasts
broadcast-Broadcasts [] test q block e = ([], refl, λ x. refl)
broadcast-Broadcasts (c ∷ cs) test q block e = (to_all_if test block ∷ [], rw e, λ x. append-nil _)

-- What a host does with a broadcast: the local client gets the packet as well if it passes the test.
with_local : ℕ → (ℕ → Bool) → Packet → List Effect → List Effect
with_local now test q sent = if test 1 then sent ++ to_local (Host.for_local now q) ∷ [] else sent

gets-local :
    (now : ℕ) (clients : List ℕ) (p : Packet) (sent : List Effect) (x : ℕ)
    → gets clients x (sent ++ to_local (Host.for_local now (stamp_time now p)) ∷ [])
      ≡ gets clients x sent ++ (if x == 1 then stamped now p ∷ [] else [])
unfolding reset_read_position set_header
gets-local now clients p sent x =
    gets-append clients x sent (to_local (Host.for_local now (stamp_time now p)) ∷ [])
    ∙ ap (◌++◌ (gets clients x sent)) (append-nil _)

-- The two parts together, at a client.
local_once :
    (m : Bool) (test : ℕ → Bool) (block : List ℕ) (x : ℕ)
    → ((x ≡ 1) → m ≡ false)
    → test 1 ≡ true
    → (if m && test x then block ∷ [] else []) ++ (if x == 1 then block ∷ [] else [])
      ≡ (if (m || (x == 1)) && test x then block ∷ [] else [])
local_once m test block x apart one = elim (ℕ_discrete x 1) [
  | yes at ↦ rw (at, one, apart at)
  | no ne ↦ rw (==_ne x 1 ne) (ground arith)
]

not_local :
    (m : Bool) (test : ℕ → Bool) (block : List ℕ) (x : ℕ)
    → test 1 ≡ false
    → (if m && test x then block ∷ [] else [])
      ≡ (if (m || (x == 1)) && test x then block ∷ [] else [])
not_local m test block x other = elim (ℕ_discrete x 1) [
  | yes at ↦ rw (at, other) (ground arith)
  | no ne ↦ rw (==_ne x 1 ne) (ground arith)
]

gets-with_local :
    (now : ℕ) (clients : List ℕ) (test : ℕ → Bool) (p : Packet) (sent : List Effect) (x : ℕ)
    → member 1 clients ≡ false
    → gets clients x sent ≡ (if member x clients && test x then stamped now p ∷ [] else [])
    → gets clients x (with_local now test (stamp_time now p) sent)
      ≡ (if (member x clients || (x == 1)) && test x then stamped now p ∷ [] else [])
unfolding with_local
gets-with_local now clients test p sent x apart e = elim (Bool-cases (test 1)) [
  | inl one ↦ rw one (
      gets-local now clients p sent x
      ∙ ap (λ t. t ++ (if x == 1 then stamped now p ∷ [] else [])) e
      ∙ local_once (member x clients) test (stamped now p) x (λ at. rw at apart) one)
  | inr other ↦ rw other (e ∙ not_local (member x clients) test (stamped now p) x other)
]

host-Sends :
    (now : ℕ) (clients : List ℕ) (test : ℕ → Bool) (p : Packet)
    → p.bytes_written ≤ length p.bytes
    → member 1 clients ≡ false
    → Sends now clients
        (λ x. (member x clients || (x == 1)) && test x)
        p
        (broadcast clients test (stamp_time now p) >>= λ sent.
          ok (with_local now test (stamp_time now p) sent))
unfolding Broadcasts
host-Sends now clients test p h apart =
    let b =
      broadcast-Broadcasts clients test (stamp_time now p) (stamped now p)
        (sent_bytes-stamp_time now p h) in
    (
      with_local now test (stamp_time now p) b.0,
      rw b.1,
      λ x. gets-with_local now clients test p b.0 x apart (b.2 x),
    )

host_all-Sends :
    (now : ℕ) (clients : List ℕ) (p : Packet)
    → p.bytes_written ≤ length p.bytes
    → member 1 clients ≡ false
    → Sends now clients (λ x. member x clients || (x == 1)) p (Host.send_to_all now clients p)
unfolding Host.send_to_all with_local
host_all-Sends now clients p h apart =
    let sends = host-Sends now clients (λ c. true) p h apart in
    (sends.0, sends.1, λ x. sends.2 x ∙ ap (λ b. if b then stamped now p ∷ [] else []) (&&-true _))

host_some-Sends :
    (now : ℕ) (clients : List ℕ) (test : ℕ → Bool) (p : Packet)
    → p.bytes_written ≤ length p.bytes
    → member 1 clients ≡ false
    → Sends now clients
        (λ x. (member x clients || (x == 1)) && test x)
        p
        (Host.send_to_some now clients test p)
unfolding Host.send_to_some with_local
host_some-Sends now clients test p h apart = host-Sends now clients test p h apart

host_except-Sends :
    (now : ℕ) (clients : List ℕ) (excluded : ℕ) (p : Packet)
    → p.bytes_written ≤ length p.bytes
    → member 1 clients ≡ false
    → Sends now clients
        (λ x. (member x clients || (x == 1)) && not (x == excluded))
        p
        (Host.send_to_all_except now clients excluded p)
unfolding Host.send_to_all_except with_local
host_except-Sends now clients excluded p h apart =
    let test : ℕ → Bool = λ c. not (c == excluded) in
    rw (==_sym excluded 1) (host-Sends now clients test p h apart)

at_local :
    (m : Bool) (block : List ℕ) (x : ℕ)
    → (if x == 1 then block ∷ [] else []) ≡ (if (m || (x == 1)) && (1 == x) then block ∷ [] else [])
at_local m block x = rw (==_sym 1 x) (ground arith)

not_at_local :
    (m : Bool) (block : List ℕ) (c x : ℕ)
    → c ≢ 1
    → (if m && (c == x) then block ∷ [] else [])
      ≡ (if (m || (x == 1)) && (c == x) then block ∷ [] else [])
not_at_local m block c x ne = elim (ℕ_discrete c x) [
  | yes at ↦ rw (sym at, ==_ne c 1 ne) (ground arith)
  | no other ↦ rw (==_ne c x other) (ground arith)
]

host_one-Sends :
    (now : ℕ) (clients : List ℕ) (c : ℕ) (p : Packet)
    → p.bytes_written ≤ length p.bytes
    → member 1 clients ≡ false
    → Sends now clients
        (λ x. (member x clients || (x == 1)) && (c == x))
        p
        (Host.send_to_one now c p)
unfolding Host.send_to_one reset_read_position
host_one-Sends now clients c p h apart = elim (ℕ_discrete c 1) [
  | yes at ↦ rw at (
    to_local (reset_read_position (stamp_time now p)) ∷ [],
    refl,
    λ x. append-nil _ ∙ at_local (member x clients) (stamped now p) x,
  )
  | no ne ↦ (
    to_one c (stamped now p) ∷ [],
    rw (==_ne c 1 ne, sent_bytes-stamp_time now p h),
    λ x. append-nil _ ∙ not_at_local (member x clients) (stamped now p) c x ne,
  )
]

standard_broadcast-Sends :
    (now : ℕ) (clients : List ℕ) (test : ℕ → Bool) (p : Packet)
    → p.bytes_written ≤ length p.bytes
    → Sends now clients
        (λ x. member x clients && test x)
        p
        (broadcast clients test (stamp_time now p))
unfolding Broadcasts
standard_broadcast-Sends now clients test p h =
    broadcast-Broadcasts clients test (stamp_time now p) (stamped now p)
      (sent_bytes-stamp_time now p h)

-- For a packet whose written bytes lie in its buffer, the sends of a standard server return, and bring
-- the stamped packet once to each connected client that is meant and to nobody else.
pub standard-Sends :
    (now : ℕ) (clients : List ℕ) (c : ℕ) (test : ℕ → Bool) (p : Packet)
    → p.bytes_written ≤ length p.bytes
    → Sends now clients (λ x. member x clients && (c == x)) p (Standard.send_to_one now c p)
      × Sends now clients (λ x. member x clients && true) p (Standard.send_to_all now clients p)
      × Sends now clients
          (λ x. member x clients && test x)
          p
          (Standard.send_to_some now clients test p)
      × Sends now clients
          (λ x. member x clients && not (x == c))
          p
          (Standard.send_to_all_except now clients c p)
unfolding Standard.send_to_one Standard.send_to_all Standard.send_to_some
    Standard.send_to_all_except
standard-Sends now clients c test p h = (
  (to_one c (stamped now p) ∷ [], rw (sent_bytes-stamp_time now p h), λ x. append-nil _),
  standard_broadcast-Sends now clients (λ x. true) p h,
  standard_broadcast-Sends now clients test p h,
  standard_broadcast-Sends now clients (λ x. not (x == c)) p h,
)

-- For a packet whose written bytes lie in its buffer, and clients none of whom has the id 1 of the
-- local client, the sends of a host return, and bring the stamped packet once to each client, the
-- local one counted, that is meant and to nobody else.
pub host-Sends_all :
    (now : ℕ) (clients : List ℕ) (c : ℕ) (test : ℕ → Bool) (p : Packet)
    → p.bytes_written ≤ length p.bytes
    → member 1 clients ≡ false
    → Sends now clients
        (λ x. (member x clients || (x == 1)) && (c == x))
        p
        (Host.send_to_one now c p)
      × Sends now clients (λ x. member x clients || (x == 1)) p (Host.send_to_all now clients p)
      × Sends now clients
          (λ x. (member x clients || (x == 1)) && test x)
          p
          (Host.send_to_some now clients test p)
      × Sends now clients
          (λ x. (member x clients || (x == 1)) && not (x == c))
          p
          (Host.send_to_all_except now clients c p)
host-Sends_all now clients c test p h apart = (
  host_one-Sends now clients c p h apart,
  host_all-Sends now clients p h apart,
  host_some-Sends now clients test p h apart,
  host_except-Sends now clients c p h apart,
)
