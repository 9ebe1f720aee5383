-- ===== src/Server/Queue.antt =====
-- Received packets are handled once each, in the order in which they were pushed, until a handler throws.
use enki_net.Common.{◌≡◌, List, [], ◌∷◌, ◌++◌, Option, none, some, Exception}
use enki_net.Packet.{Packet}
use enki_net.Server.{Inbox, push_packet}

-- Packets pushed one after the other.
abbrev pub push_all : List Packet → Inbox → Inbox
push_all [] b = b
push_all (p ∷ ps) b = push_all ps (push_packet p b)

module _ {S : Type 0} (handle : Packet → S → S × Option Exception) where
  -- The handler takes the packets, in order, and throws nothing on the way from one state to the other.
  abbrev pub Handled : List Packet → S → S → Type 0
  Handled [] st end = st ≡ end
  Handled (p ∷ ps) st end = (next : S) × (handle p st ≡ (next, none)) × Handled ps next end

  -- Nothing is left and nothing was thrown, or the handler has thrown at the first packet that is left.
  abbrev pub Stops : List Packet → S → S → Option Exception → Type 0
  Stops [] st end thrown = (st ≡ end) × (thrown ≡ none)
  Stops (p ∷ ps) st end thrown = (x : Exception) × (thrown ≡ some x) × (handle p st ≡ (end, some x))

  -- What a loop over the packets comes to.
  abbrev pub Drained : List Packet → S → List Packet × S × Option Exception → Type 0
  Drained ps st (left, end, thrown) =
      (handled : List Packet) × (at : S) × (ps ≡ handled ++ left)
      × Handled handled st at
      × Stops left at end thrown
