-- ===== src/Packet.antt =====
-- src/EnkiNet/Networking/Packet.hpp and Packet.cpp: the byte buffer of a message, with its header,
-- its write and read cursors, and the byte-wise (de)serialization that all other codecs use.
-- Sizes are those of a 64-bit little-endian platform: sizeof(PacketHeader) is 8 (a byte, three
-- bytes of padding, four bytes) and sizeof(std::size_t) is 8. The padding is written as zeros.
pub mod Codec
pub mod Laws
pub mod Channel
pub mod Transmission
pub mod Bits
pub mod RoundTrip
pub mod Floats
use enki_net.Common.{
  ℕ, zero, suc, ◌+◌, ◌*◌, ◌/◌, ◌%◌, ◌^◌, List, [], ◌∷◌, ◌++◌, Bool, true, false, Option, none, some,
  length, take, drop, get_or, poke, poke_at, resize, ltb, ◌==◌, if◌then◌else◌, Outcome, ok, throws,
  fault, null_serialize, read_past_end, null_deserialize,
}

-- The enumerators; a header read from the network can hold any byte, so it stores the number.
pub data PacketType : Type 0 where
  untyped command client_initialized connected disconnected : PacketType
  global_rpc entity_rpc class_rpc : PacketType
  entity_creation entity_creation_on_connection entity_update entity_deletion : PacketType

abbrev pub type_code : PacketType → ℕ
type_code untyped = 0
type_code command = 1
type_code client_initialized = 2
type_code connected = 3
type_code disconnected = 4
type_code global_rpc = 5
type_code entity_rpc = 6
type_code class_rpc = 7
type_code entity_creation = 8
type_code entity_creation_on_connection = 9
type_code entity_update = 10
type_code entity_deletion = 11

pub record PacketHeader : Type 0 where
  pub type : ℕ
  pub time_sent : ℕ

pub record PacketInfo : Type 0 where
  pub sender_id : ℕ
  pub time_received : ℕ

pub record Packet : Type 0 where
  pub info : PacketInfo
  pub bytes : List ℕ
  pub header : PacketHeader
  pub bytes_written : ℕ
  pub bytes_read : ℕ
  pub bits_written : ℕ
  pub bits_read : ℕ

abbrev pub sizeof_header : ℕ
sizeof_header = 8

abbrev pub sizeof_size_t : ℕ
sizeof_size_t = 8

-- The object representation of an unsigned number of `w` bytes, and back.
abbrev pub le_bytes : ℕ → ℕ → List ℕ
le_bytes zero n = []
le_bytes (suc w) n = (n % 256) ∷ le_bytes w (n / 256)

abbrev pub of_le_bytes : List ℕ → ℕ
of_le_bytes [] = 0
of_le_bytes (b ∷ bs) = b + 256 * of_le_bytes bs

-- The object representation of a header.
unfoldable pub header_bytes : PacketHeader → List ℕ
header_bytes h = h.type ∷ 0 ∷ 0 ∷ 0 ∷ le_bytes 4 h.time_sent

unfoldable pub header_of_bytes : List ℕ → PacketHeader
header_of_bytes bs = record { type = get_or bs 0 0; time_sent = of_le_bytes (take 4 (drop 4 bs)) }

abbrev pub default_header : PacketHeader
default_header = record { type = type_code untyped; time_sent = 0 }

abbrev pub default_info : PacketInfo
default_info = record { sender_id = 0; time_received = 0 }

-- Packet(PacketHeader); Packet() is the same with the default header.
unfoldable pub of_header : PacketHeader → Packet
unfolding header_bytes
of_header h = record {
  info = default_info;
  bytes = poke (resize sizeof_header 0 []) (header_bytes h);
  header = h;
  bytes_written = sizeof_header;
  bytes_read = sizeof_header;
  bits_written = 8;
  bits_read = 8;
}

unfoldable pub empty : Packet
unfolding of_header
empty = of_header default_header

-- Packet(data, size), for both pointer types: the header is copied out of the first 8 bytes, which
-- a shorter block does not have.
unfoldable pub of_data : List ℕ → Outcome Packet
unfolding header_of_bytes
of_data data' =
    if ltb (length data') sizeof_header
    then fault
    else ok (record {
      info = default_info;
      bytes = data';
      header = header_of_bytes data';
      bytes_written = length data';
      bytes_read = sizeof_header;
      bits_written = 8;
      bits_read = 8;
    })

-- serialize: a null pointer throws; the buffer is grown to twice what is needed.
unfoldable pub serialize : Option (List ℕ) → Packet → Outcome Packet
serialize none p = throws null_serialize
serialize (some ds) p =
    let end = p.bytes_written + length ds in
    let room = if ltb (length p.bytes) end then resize (end * 2) 0 p.bytes else p.bytes in
    ok (record p { bytes = poke_at p.bytes_written ds room; bytes_written = end; bits_written = 8 })

-- deserialize: `null` says whether the pointer to read into is null.
unfoldable pub deserialize : Bool → ℕ → Packet → Outcome (List ℕ × Packet)
deserialize null size p =
    let end = p.bytes_read + size in
    if ltb (length p.bytes) end
    then throws read_past_end
    else if null
    then throws null_deserialize
    else ok (take size (drop p.bytes_read p.bytes), record p { bytes_read = end; bits_read = 8 })

-- The sum of `sizeof...(Args)`.
abbrev pub total_size : List ℕ → ℕ
total_size [] = 0
total_size (n ∷ ns) = n + total_size ns

-- canDeserialize<Args...>, at the sizes of its type arguments.
unfoldable pub can_deserialize : List ℕ → Packet → Bool
can_deserialize sizes p =
    if ltb (length p.bytes) (p.bytes_read + total_size sizes) then false else true

unfoldable pub reset_read_position : Packet → Packet
reset_read_position p = record p { bytes_read = sizeof_header; bits_read = 8 }

-- clear: the header is copied behind the end of the emptied vector, where nothing keeps it.
unfoldable pub clear : Packet → Packet
unfolding header_bytes
clear p = record p {
  bytes = poke [] (header_bytes p.header);
  bytes_read = sizeof_header;
  bits_read = 8;
  bytes_written = sizeof_header;
  bits_written = 8;
}

unfoldable pub is_empty : Packet → Bool
is_empty p = length p.bytes == sizeof_header

unfoldable pub set_header : PacketHeader → Packet → Packet
unfolding header_bytes
set_header h p = record p { header = h; bytes = poke p.bytes (header_bytes h) }

-- What a send hands to the transport: `getBytesWritten` bytes from `getBytes().data()`.
unfoldable pub sent_bytes : Packet → Outcome (List ℕ)
sent_bytes p =
    if ltb (length p.bytes) p.bytes_written then fault else ok (take p.bytes_written p.bytes)
