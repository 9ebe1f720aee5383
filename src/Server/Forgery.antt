-- ===== src/Server/Forgery.antt =====
-- A client of src/EnkiNet/Networking's servers that sends a packet of type DISCONNECTED.
use enki_net.Common.{ℕ, ◌≤◌, ◌≡◌, refl, List, [], length, get_or, le→ltb, ok}
use enki_net.Packet.{Packet, of_data, header_of_bytes, sizeof_header, type_code, disconnected}
use enki_net.Server.{ClientIds, get_next_uid, release_id, data_packet}

-- When the client `x` sends a block of 8 bytes or more whose type byte says DISCONNECTED and no id is
-- free, the server takes the packet in, and after its handler for received packets the next client gets
-- the id `x` as well.
pub forged_disconnect :
    (now x : ℕ) (block : List ℕ) (ids : ClientIds)
    → sizeof_header ≤ length block
    → get_or block 0 0 ≡ type_code disconnected
    → ids.free_ids ≡ []
    → (p : Packet) × (data_packet x now block ≡ ok p) × ((get_next_uid (release_id p ids)).0 ≡ x)
unfolding data_packet of_data header_of_bytes get_next_uid release_id
forged_disconnect now x block ids long type free =
    rw (le→ltb (length block) sizeof_header long) (_, refl, rw (type, free) refl)
