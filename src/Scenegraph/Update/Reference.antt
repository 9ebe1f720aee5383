-- ===== src/Scenegraph/Update/Reference.antt =====
-- What an update makes of each entity, one by one.
use enki_net.Common.{ℕ, Bool, List, map}
use enki_net.Packet.{Packet}
use enki_net.Scenegraph.{SceneEntity}

module _ {G : Type 0} (hosting : Bool) (run : G → G) (ex : ℕ → Bool) where
  keys_of : List (ℕ × SceneEntity G) → List ℕ
  keys_of es = map (λ (k, e). k) es
