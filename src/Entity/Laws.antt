-- ===== src/Entity/Laws.antt =====
-- The codec and the equality of entity infos.
use enki_net.Common.{
  ℕ, ◌^◌, ◌≤◌, ◌<◌, ◌≡◌, ◌↔◌, List, ◌++◌, true, length, ===_iff, ===_refl, ok, arith,
}
use enki_net.Packet.{Packet, PacketHeader, le_bytes, of_header}
use enki_net.Packet.Codec.{put_number, get_number, put_string, get_string}
use enki_net.Packet.Transmission.{transmit, transmit-Reads, new_packet_room}
use enki_net.Packet.Laws.{Writes, Reads, Writes-bind, Reads-bind, Reads-map}
use enki_net.Packet.RoundTrip.{
  put_number-Writes, get_number-Reads, put_string-Writes, get_string-Reads, string_bytes,
}
use enki_net.Entity.{EntityInfo, info_eq, put_info, get_info}

-- Two infos compare equal exactly when they are the same.
pub info_eq_iff : (a b : EntityInfo) → (info_eq a b ≡ true) ↔ (a ≡ b)
unfolding info_eq
info_eq_iff a b = (
  λ h. ground (arith, ===_iff a.name b.name, ===_iff a.type b.type),
  λ e. rw e (ground (arith, ===_refl b.name, ===_refl b.type)),
)

-- The bytes of an info in a packet.
abbrev name_bytes : EntityInfo → List ℕ
name_bytes e = string_bytes e.name ++ le_bytes 4 e.parent_id

abbrev type_bytes : EntityInfo → List ℕ
type_bytes e = string_bytes e.type ++ name_bytes e

abbrev pub info_bytes : EntityInfo → List ℕ
info_bytes e = le_bytes 4 e.id ++ (le_bytes 4 e.owner_id ++ type_bytes e)

-- The ids are 32-bit patterns, and the lengths fit a std::size_t.
pub record IsInfo (e : EntityInfo) : Type 0 where
  pub id_fits : e.id < 256 ^ 4
  pub owner_fits : e.owner_id < 256 ^ 4
  pub parent_fits : e.parent_id < 256 ^ 4
  pub type_fits : length e.type < 256 ^ 8
  pub name_fits : length e.name < 256 ^ 8

pub put_info-Writes :
    (e : EntityInfo) (p : Packet)
    → p.bytes_written ≤ length p.bytes
    → Writes (put_info e p) p (info_bytes e)
unfolding put_info
put_info-Writes e p h =
    Writes-bind (put_number 4 e.id p) _ p (le_bytes 4 e.id) _ (put_number-Writes 4 e.id p h)
      λ p1 h1.
        Writes-bind (put_number 4 e.owner_id p1) _ p1 (le_bytes 4 e.owner_id) _
          (put_number-Writes 4 e.owner_id p1 h1)
          λ p2 h2.
            Writes-bind (put_string e.type p2) _ p2 (string_bytes e.type) _
              (put_string-Writes e.type p2 h2)
              λ p3 h3.
                Writes-bind (put_string e.name p3) _ p3 (string_bytes e.name) _
                  (put_string-Writes e.name p3 h3) (put_number-Writes 4 e.parent_id)

pub get_info-Reads : (e : EntityInfo) → IsInfo e → Reads get_info e (info_bytes e)
unfolding get_info
get_info-Reads e h =
    Reads-bind (get_number 4) _ e.id e (le_bytes 4 e.id) (le_bytes 4 e.owner_id ++ type_bytes e)
      (get_number-Reads 4 e.id h.id_fits)
      (Reads-bind (get_number 4) _ e.owner_id e (le_bytes 4 e.owner_id) (type_bytes e)
        (get_number-Reads 4 e.owner_id h.owner_fits)
        (Reads-bind get_string _ e.type e (string_bytes e.type) (name_bytes e)
          (get_string-Reads e.type h.type_fits)
          (Reads-bind get_string _ e.name e (string_bytes e.name) (le_bytes 4 e.parent_id)
            (get_string-Reads e.name h.name_fits)
            (Reads-map (get_number 4)
              (λ parent. record {
                type = e.type;
                name = e.name;
                id = e.id;
                owner_id = e.owner_id;
                parent_id = parent;
              })
              e.parent_id (le_bytes 4 e.parent_id)
              (get_number-Reads 4 e.parent_id h.parent_fits)))))

-- An info whose fields fit their types, written to a new packet, sent under any header and received,
-- is read back as it was, behind the header that was sent.
pub info_transmission :
    (e : EntityInfo) (h h' : PacketHeader)
    → IsInfo e
    → h'.time_sent < 2 ^ 32
    → transmit (put_info e) get_info h h' ≡ ok (h', e)
info_transmission e h h' valid fits =
    transmit-Reads (put_info e) get_info (info_bytes e) e h h'
      (put_info-Writes e (of_header h) (new_packet_room h)) (get_info-Reads e valid) fits
