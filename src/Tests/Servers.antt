-- ===== src/Tests/Servers.antt =====
-- Servers at concrete inputs.
use enki_net.Common.{
  ℕ, ◌+◌, ◌≡◌, ◌≤◌, ◌<◌, ◌==◌, ◌&&◌, ◌||◌, not, refl, [], ◌∷◌, Bool, false, ltb, length, ok, arith,
  Option, none, some, Exception, read_past_end, if◌then◌else◌,
}
use enki_net.Packet.{Packet, empty, of_header}
use enki_net.Server.{
  Inbox, push_packet, new_inbox, drain, update_inbox, get_next_uid, release_id, data_packet,
  connection_packet,
}
use enki_net.Server.Queue.{push_all}
use enki_net.Server.Sends.{member, Sends, host-Sends_all}
use enki_net.Server.Ids.{
  System, Reach, start, next, accept, leave, update, count, leaving, Reach-count,
}
use enki_net.Server.Forgery.{forged_disconnect}
use enki_net.Server.Host

-- A handler that throws at packets of the type 7.
abbrev add_length : Packet → ℕ → ℕ × Option Exception
add_length p n = (length p.bytes + n, if p.header.type == 7 then some read_past_end else none)

abbrev bad : Packet
bad = of_header (record { type = 7; time_sent = 0 })

abbrev handled_once : Inbox × ℕ × Option Exception
handled_once = update_inbox false add_length (push_all (empty ∷ bad ∷ empty ∷ []) new_inbox) 5

-- The packet at which the handler throws stays, and the one behind it.
handled_once_lem :
    (handled_once.0.packets ≡ bad ∷ empty ∷ [])
    × (handled_once.1 ≡ 21)
    × (handled_once.2 ≡ some read_past_end)
unfolding update_inbox push_packet of_header empty
handled_once_lem = (refl, refl, refl)

abbrev odd_clients : ℕ → Bool
odd_clients c = ltb 2 c

host-Sends_all_example :
    Sends 50
      (2 ∷ 3 ∷ [])
      (λ x. (member x (2 ∷ 3 ∷ []) || (x == 1)) && (3 == x))
      empty
      (Host.send_to_one 50 3 empty)
    × Sends 50
        (2 ∷ 3 ∷ [])
        (λ x. member x (2 ∷ 3 ∷ []) || (x == 1))
        empty
        (Host.send_to_all 50 (2 ∷ 3 ∷ []) empty)
    × Sends 50
        (2 ∷ 3 ∷ [])
        (λ x. (member x (2 ∷ 3 ∷ []) || (x == 1)) && odd_clients x)
        empty
        (Host.send_to_some 50 (2 ∷ 3 ∷ []) odd_clients empty)
    × Sends 50
        (2 ∷ 3 ∷ [])
        (λ x. (member x (2 ∷ 3 ∷ []) || (x == 1)) && not (x == 3))
        empty
        (Host.send_to_all_except 50 (2 ∷ 3 ∷ []) 3 empty)
unfolding empty of_header
host-Sends_all_example = host-Sends_all 50 (2 ∷ 3 ∷ []) 3 odd_clients empty (omega arith) refl

-- A client comes, and leaves, and its id comes back.
abbrev joined : System
joined = record { ids = record { next_uid = 3; free_ids = [] }; clients = 2 ∷ []; queue = [] }

joined-Reach : Reach joined
unfolding get_next_uid
joined-Reach = next start (accept (omega arith))

abbrev left : System
left = record {
  ids = record { next_uid = 3; free_ids = [] };
  clients = [];
  queue = connection_packet 4 2 90 ∷ [];
}

left-Reach : Reach left
left-Reach = next joined-Reach (leave [] 2 [] 90 refl)

abbrev returned : System
returned = record { ids = record { next_uid = 3; free_ids = 2 ∷ [] }; clients = []; queue = [] }

returned-Reach : Reach returned
unfolding drain release_id connection_packet of_header
returned-Reach = next left-Reach update

-- The next client gets the id that came back.
again-Reach : Reach joined
unfolding get_next_uid
again-Reach = next returned-Reach (accept (omega arith))

Reach-count_example :
    (count 2 joined.clients ≤ 1)
    × (1 ≤ count 2 joined.clients
        → (2 ≤ 2)
          × (2 < joined.ids.next_uid)
          × (count 2 joined.ids.free_ids ≡ 0)
          × (leaving 2 joined.queue ≡ 0))
Reach-count_example = Reach-count joined again-Reach 2

forged_disconnect_example :
    (p : Packet) × (data_packet 2 90 (4 ∷ 0 ∷ 0 ∷ 0 ∷ 1 ∷ 0 ∷ 0 ∷ 0 ∷ []) ≡ ok p)
    × ((get_next_uid (release_id p (record { next_uid = 3; free_ids = [] }))).0 ≡ 2)
forged_disconnect_example =
    forged_disconnect 90 2 (4 ∷ 0 ∷ 0 ∷ 0 ∷ 1 ∷ 0 ∷ 0 ∷ 0 ∷ [])
      (record { next_uid = 3; free_ids = [] }) (omega arith) refl refl
