-- ===== src/Tests/Signals.antt =====
-- Signals at concrete inputs: a signal at the address 40 with two slots.
use enki_net.Common.{ℕ, ◌==◌, refl, [], ◌∷◌, none, some, if◌then◌else◌, arith}
use enki_net.Signal.{Signal, World}
use enki_net.Signal.Laws.{IsSignal, Connects, connect-Connects, to_slot}

abbrev two_slots : Signal ℕ
two_slots = record {
  address = 40;
  slot_id_counter = 2;
  slots =
      record { connection = to_slot 40 1; function = 10 }
      ∷ record { connection = to_slot 40 2; function = 20 }
      ∷ [];
}

abbrev one_signal : World ℕ
one_signal a = if a == 40 then some two_slots else none

two_slots-IsSignal : IsSignal one_signal two_slots
two_slots-IsSignal = record {
  alive = refl;
  ordered = (refl, omega arith, (refl, omega arith, omega arith));
}

connect-Connects_example : Connects one_signal 30 two_slots
connect-Connects_example = connect-Connects one_signal 30 two_slots two_slots-IsSignal (omega arith)
