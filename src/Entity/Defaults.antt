-- ===== src/Entity/Defaults.antt =====
-- The virtual functions of Entity in src/EnkiNet/Entity.hpp, for a class that does not override them; `serialize` and `deserialize` are
-- the class's serializeOnTick and deserializeOnTick.
use enki_net.Common.{Outcome, ok}
use enki_net.Packet.{Packet}

module _ {G : Type 0} where
  unfoldable pub on_spawn : Packet → G → Outcome G
  on_spawn p g = ok g

  unfoldable pub serialize_on_tick : G → Packet → Outcome Packet
  serialize_on_tick g p = ok p

  unfoldable pub deserialize_on_tick : Packet → G → Outcome G
  deserialize_on_tick p g = ok g

  unfoldable pub serialize_on_connection :
      (G → Packet → Outcome Packet) → G → Packet → Outcome Packet
  serialize_on_connection serialize g p = serialize g p

  unfoldable pub deserialize_on_connection : (Packet → G → Outcome G) → Packet → G → Outcome G
  deserialize_on_connection deserialize p g = deserialize p g
