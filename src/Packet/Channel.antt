-- ===== src/Packet/Channel.antt =====
-- A packet on its way: the sender stamps the header and hands `getBytesWritten` bytes to the
-- transport, and the receiver builds a packet from these bytes.
use enki_net.Common.{
  ℕ, zero, suc, ◌^◌, ◌≤◌, ◌<◌, ◌≡◌, refl, sym, ap, ◌∙◌, List, [], ◌∷◌, ◌++◌, length, append_assoc,
  take, drop, poke, take-append-drop, drop-append, drop-poke, length-poke, le→ltb, ok, arith,
}
use enki_net.Packet.{
  default_info, Packet, PacketHeader, header_bytes, header_of_bytes, of_header, of_data, set_header,
  sent_bytes,
}
use enki_net.Packet.Laws.{written, Appends, Ready}

take-poke_front :
    (n : ℕ) (xs ds : List ℕ)
    → n ≤ length xs
    → length ds ≤ n
    → take n (poke xs ds) ≡ ds ++ drop (length ds) (take n xs)
take-poke_front n [] [] h g = refl
take-poke_front n (x ∷ xs) [] h g = refl
take-poke_front zero xs (d ∷ ds) h g = absurd (omega arith)
take-poke_front (suc n) [] (d ∷ ds) h g = absurd (omega arith)
take-poke_front (suc n) (x ∷ xs) (d ∷ ds) h g =
    ap (◌∷◌ d) (take-poke_front n xs ds (omega arith) (omega arith))

pub header_round_trip :
    (h : PacketHeader) (bs : List ℕ)
    → h.time_sent < 2 ^ 32
    → header_of_bytes (header_bytes h ++ bs) ≡ h
unfolding header_of_bytes header_bytes
header_round_trip h bs fits = ap (λ (t : ℕ). record { type = h.type; time_sent = t }) (omega arith)

pub written-of_header : (h : PacketHeader) → written (of_header h) ≡ header_bytes h
unfolding of_header header_bytes
written-of_header h = refl

-- A packet that was begun with some header and has `bs` written to it.
abbrev pub Carries : PacketHeader → List ℕ → Packet → Type 0
Carries h bs p = Appends (of_header h) bs p

-- A packet whose write cursor is behind the room for the header, and that has this room.
abbrev pub Begun : Packet → Type 0
Begun b = (b.bytes_written ≡ 8) × (length (written b) ≡ 8)

sent_after_header :
    (b : Packet) (bs : List ℕ) (p : Packet) (h : PacketHeader)
    → Begun b
    → Appends b bs p
    → sent_bytes (set_header h p) ≡ ok (header_bytes h ++ bs)
unfolding sent_bytes set_header
sent_after_header b bs p h begun a =
    rw
      (le→ltb (length (poke p.bytes (header_bytes h))) p.bytes_written
        (omega (arith, length-poke p.bytes (header_bytes h), a.room)))
      (ap ok (
        take-poke_front p.bytes_written p.bytes (header_bytes h) a.room
          (unfold header_bytes in omega (arith, a.count, begun.0))
        ∙ ap (λ (t : List ℕ). header_bytes h ++ t) rest))
  where
    eight : length (header_bytes h) ≡ length (written b)
    eight = unfold header_bytes in sym begun.1

    rest : drop (length (header_bytes h)) (take p.bytes_written p.bytes) ≡ bs
    rest =
        ap (λ (t : List ℕ). drop (length (header_bytes h)) t) a.content
        ∙ ap (λ (k : ℕ). drop k (written b ++ bs)) eight
        ∙ drop-append (written b) bs

abbrev pub received : List ℕ → Packet
received d = record {
  info = default_info;
  bytes = d;
  header = header_of_bytes d;
  bytes_written = length d;
  bytes_read = 8;
  bits_written = 8;
  bits_read = 8;
}

pub of_data_long : (d : List ℕ) → 8 ≤ length d → of_data d ≡ ok (received d)
unfolding of_data
of_data_long d h = rw (le→ltb (length d) 8 h) refl

-- What was written to a packet is what the receiver finds behind the header that was sent last.
pub record Arrives (p : Packet) (h : PacketHeader) (bs : List ℕ) : Type 0 where
  pub block : List ℕ
  pub packet : Packet
  pub sent : sent_bytes (set_header h p) ≡ ok block
  pub built : of_data block ≡ ok packet
  pub same_header : packet.header ≡ h
  pub ready : Ready packet bs

pub Arrives-Begun :
    (b : Packet) (bs : List ℕ) (p : Packet) (h : PacketHeader)
    → Begun b
    → Appends b bs p
    → h.time_sent < 2 ^ 32
    → Arrives p h bs
unfolding header_bytes
Arrives-Begun b bs p h begun a fits = record {
  block = header_bytes h ++ bs;
  packet = received (header_bytes h ++ bs);
  sent = sent_after_header b bs p h begun a;
  built = of_data_long (header_bytes h ++ bs) (omega arith);
  same_header = header_round_trip h bs fits;
  ready = record { inside = omega arith; aligned = refl; unread = refl };
}

pub arrives :
    (h : PacketHeader) (bs : List ℕ) (p : Packet) (h' : PacketHeader)
    → Carries h bs p
    → h'.time_sent < 2 ^ 32
    → Arrives p h' bs
arrives h bs p h' a fits = Arrives-Begun (of_header h) bs p h' begun a fits
  where
    begun : Begun (of_header h)
    begun = unfold of_header header_bytes in (refl, refl)

-- A packet that was written to can also be read on the spot: what was written comes first, before
-- what the buffer holds in excess.
pub excess : Packet → List ℕ
excess p = drop p.bytes_written p.bytes

pub Carries-Ready :
    (h : PacketHeader) (bs : List ℕ) (p : Packet) → Carries h bs p → Ready p (bs ++ excess p)
unfolding excess header_bytes
Carries-Ready h bs p a = record {
  inside = unfold of_header in omega (arith, a.same_reader, a.count, a.room);
  aligned = unfold of_header in a.same_bits;
  unread =
      let start : p.bytes_read ≡ 8 = unfold of_header in a.same_reader in
      ap (λ (k : ℕ). drop k p.bytes) start ∙ ap (λ (t : List ℕ). drop 8 t) split;
}
  where
    split : p.bytes ≡ header_bytes h ++ (bs ++ excess p)
    split =
        sym (take-append-drop p.bytes_written p.bytes)
        ∙ ap (λ (t : List ℕ). t ++ excess p)
            (a.content ∙ ap (λ (t : List ℕ). t ++ bs) (written-of_header h))
        ∙ append_assoc (header_bytes h) bs (excess p)

-- Stamping a header does not touch what is behind it.
pub set_header-Ready :
    (h : PacketHeader) (bs : List ℕ) (p : Packet)
    → p.bytes_read ≡ 8
    → Ready p bs
    → Ready (set_header h p) bs
unfolding set_header
set_header-Ready h bs p e r = record {
  inside = rw (length-poke p.bytes (header_bytes h)) r.inside;
  aligned = r.aligned;
  unread =
      ap (λ (k : ℕ). drop k (poke p.bytes (header_bytes h))) e
      ∙ drop-poke p.bytes (header_bytes h)
      ∙ ap (λ (k : ℕ). drop k p.bytes) (sym e)
      ∙ r.unread;
}
