-- ===== src/Signal/Laws.antt =====
-- A signal calls its slots in the order of connection, and a disconnection takes away exactly the
-- slot that the connection names.
use enki_net.Common.{
  ℕ, ◌+◌, ◌%◌, ◌^◌, ◌≤◌, ◌<◌, ◌≡◌, refl, ap, ◌∙◌, Bool, true, false, List, [], ◌∷◌, ◌++◌, some,
  ◌==◌, ==_iff, ==_ne, ==_refl, if◌then◌else◌, ok, arith, Bool-cases, inl, inr,
}
use enki_net.Signal.{
  Connection, Slot, Signal, World, is_valid, connection_eq, connect, emit, Erased, no_connection,
  erase_slots, disconnect_slot, disconnect, destroy_signal, store_signal, locked_address,
}

-- The slots have connections to the signal at `a`, with ids that rise and lie above `lo`, up to `hi`.
abbrev pub Ordered : {F : Type 0} → ℕ → ℕ → ℕ → List (Slot F) → Type 0
Ordered a lo hi [] = lo ≤ hi
Ordered a lo hi (s ∷ ss) =
    (s.connection.target ≡ some a)
    × (lo < s.connection.slot_id)
    × Ordered a s.connection.slot_id hi ss

-- A signal that is alive, and whose slots were made by `connect`.
pub record IsSignal {F : Type 0} (w : World F) (s : Signal F) : Type 0 where
  pub alive : w s.address ≡ some s
  pub ordered : Ordered s.address 0 s.slot_id_counter s.slots

-- Whether a slot with the id is there, and the slots with other ids.
abbrev pub has : {F : Type 0} → ℕ → List (Slot F) → Bool
has id [] = false
has id (s ∷ ss) = let rest = has id ss in if s.connection.slot_id == id then true else rest

abbrev pub without : {F : Type 0} → ℕ → List (Slot F) → List (Slot F)
without id [] = []
without id (s ∷ ss) =
    let rest = without id ss in if s.connection.slot_id == id then rest else s ∷ rest

-- The connection that `connect` gives for an id.
abbrev pub to_slot : ℕ → ℕ → Connection
to_slot a id = record { target = some a; slot_id = id }

module _ {F : Type 0} where
  Ordered-above :
      (a lo hi id : ℕ) (ss : List (Slot F))
      → Ordered a lo hi ss
      → id ≤ lo
      → (has id ss ≡ false) × (without id ss ≡ ss)
  Ordered-above a lo hi id [] o h = (refl, refl)
  Ordered-above a lo hi id (s ∷ ss) o h =
      let rest = Ordered-above a s.connection.slot_id hi id ss o.2 (omega arith) in
      let ne : (s.connection.slot_id == id) ≡ false = ground arith in
      (rw ne rest.0, rw ne (ap (◌∷◌ s) rest.1))

  Ordered-le : (a lo hi : ℕ) (ss : List (Slot F)) → Ordered a lo hi ss → lo ≤ hi
  Ordered-le a lo hi [] o = o
  Ordered-le a lo hi (s ∷ ss) o = omega (arith, o.1, Ordered-le a s.connection.slot_id hi ss o.2)

  Ordered-append :
      (a lo hi id : ℕ) (ss : List (Slot F)) (f : F)
      → Ordered a lo hi ss
      → hi < id
      → Ordered a lo id (ss ++ record { connection = to_slot a id; function = f } ∷ [])
  Ordered-append a lo hi id [] f o h = (refl, omega arith, omega arith)
  Ordered-append a lo hi id (s ∷ ss) f o h =
      (o.0, o.1, Ordered-append a s.connection.slot_id hi id ss f o.2 h)

  module _ (junk : ℕ) (w : World F) (s₀ : Signal F) (alive : w s₀.address ≡ some s₀) where
    locked : (c : Connection) → c.target ≡ some s₀.address → locked_address w c ≡ some s₀.address
    locked c t = ground (arith, alive)

    same_slot :
        (s : Slot F) (id : ℕ)
        → s.connection.target ≡ some s₀.address
        → connection_eq w (to_slot s₀.address id) s.connection ≡ (s.connection.slot_id == id)
    unfolding connection_eq
    same_slot s id t =
        ground
          (arith, locked (to_slot s₀.address id) refl, locked s.connection t, ==_refl s₀.address)

    other_slot :
        (s : Slot F)
        → s.connection.target ≡ some s₀.address
        → connection_eq w (no_connection junk) s.connection ≡ false
    unfolding connection_eq
    other_slot s t = ground (arith, locked s.connection t)

    -- Once the connection is reset nothing else is taken away.
    erase_none :
        (lo hi : ℕ) (ss : List (Slot F)) (found : Bool)
        → Ordered s₀.address lo hi ss
        → erase_slots junk w ss (no_connection junk) found
          ≡ record { connection = no_connection junk; found = found; kept = ss }
    unfolding erase_slots
    erase_none lo hi [] found o = refl
    erase_none lo hi (s ∷ ss) found o =
        rw (other_slot s o.0, erase_none s.connection.slot_id hi ss found o.2) refl

    after_erase : ℕ → List (Slot F) → Erased F
    after_erase id ss =
        if has id ss
        then record { connection = no_connection junk; found = true; kept = without id ss }
        else record { connection = to_slot s₀.address id; found = false; kept = ss }

    erase_slots_lem :
        (lo hi id : ℕ) (ss : List (Slot F))
        → Ordered s₀.address lo hi ss
        → erase_slots junk w ss (to_slot s₀.address id) false ≡ after_erase id ss
    unfolding erase_slots after_erase
    erase_slots_lem lo hi id [] o = refl
    erase_slots_lem lo hi id (s ∷ ss) o = elim (Bool-cases (s.connection.slot_id == id)) [
      | inl e ↦
          let above =
            Ordered-above s₀.address s.connection.slot_id hi id ss o.2
              (ground (arith, ==_iff s.connection.slot_id id)) in
          rw (same_slot s id o.0, e, erase_none s.connection.slot_id hi ss true o.2, above.1) refl
      | inr e ↦
          rw (same_slot s id o.0, e, erase_slots_lem s.connection.slot_id hi id ss o.2)
            (elim (Bool-cases (has id ss)) [
              | inl h ↦ rw (h, after_erase)
              | inr h ↦ rw (h, after_erase)
            ])
    ]

  -- Disconnecting from a well-formed signal by a slot id above 0 takes away the slots with that id and resets the connection, or, if
  -- there is no such slot, fails and changes nothing.
  pub disconnect_slot_lem :
      (junk : ℕ) (w : World F) (s : Signal F) (id : ℕ)
      → IsSignal w s
      → 0 < id
      → disconnect_slot junk w (to_slot s.address id) s ≡ (
          if has id s.slots
          then (true, no_connection junk, record s { slots = without id s.slots })
          else (false, to_slot s.address id, s))
  unfolding disconnect_slot is_valid after_erase
  disconnect_slot_lem junk w s id v h =
      rw
        (
          erase_slots_lem junk w s v.alive 0 s.slot_id_counter id s.slots v.ordered,
          v.alive,
          ==_ne id 0 (λ e. omega arith),
        )
        (elim (Bool-cases (has id s.slots)) [
          | inl e ↦ rw (e, after_erase)
          | inr e ↦ rw (e, after_erase)
        ])

  without_last :
      (a lo hi id : ℕ) (ss : List (Slot F)) (f : F)
      → Ordered a lo hi ss
      → hi < id
      → (has id (ss ++ record { connection = to_slot a id; function = f } ∷ []) ≡ true)
        × (without id (ss ++ record { connection = to_slot a id; function = f } ∷ []) ≡ ss)
  without_last a lo hi id [] f o h = (rw (==_refl id) refl, rw (==_refl id) refl)
  without_last a lo hi id (s ∷ ss) f o h =
      let rest = without_last a s.connection.slot_id hi id ss f o.2 h in
      let below : s.connection.slot_id ≤ hi = Ordered-le a s.connection.slot_id hi ss o.2 in
      let ne : (s.connection.slot_id == id) ≡ false = ==_ne _ _ (λ e. omega arith) in
      (rw ne rest.0, rw ne (ap (◌∷◌ s) rest.1))

  emit-append :
      {S : Type 0} (call : F → S → S) (ss : List (Slot F)) (s : Slot F) (st : S)
      → emit call (ss ++ s ∷ []) st ≡ call s.function (emit call ss st)
  unfolding emit
  emit-append call [] s st = refl
  emit-append call (x ∷ ss) s st = emit-append call ss s (call x.function st)

-- What connecting `f` to the signal `s` gives.
pub record Connects {F : Type 0} (w : World F) (f : F) (s : Signal F) : Type 1 where
  pub connection : Connection
  pub after : Signal F
  pub connects : connect (some f) s ≡ ok (connection, after)
  pub signal : IsSignal (store_signal w s.address after) after
  pub valid : is_valid (store_signal w s.address after) connection ≡ true
  pub last :
      (S : Type 0) (call : F → S → S) (st : S)
      → emit call after.slots st ≡ call f (emit call s.slots st)
  pub undone :
      (junk : ℕ)
      → disconnect_slot junk (store_signal w s.address after) connection after
        ≡ (true, no_connection junk, record after { slots = s.slots })

-- Connecting a function to a well-formed signal gives a valid connection and keeps the signal well
-- formed, the function is called after all that were there, and disconnecting by the connection gives back the slots as they were. This holds until the 32-bit
-- counter wraps round.
pub connect-Connects :
    {F : Type 0} (w : World F) (f : F) (s : Signal F)
    → IsSignal w s
    → s.slot_id_counter + 1 < 2 ^ 32
    → Connects w f s
unfolding connect is_valid
connect-Connects {F} w f s v h = record {
  connection = to_slot s.address id;
  after = after;
  connects = rw wraps refl;
  signal = made;
  valid = ground (arith, ==_refl s.address);
  last = λ S call st. emit-append call s.slots new st;
  undone = λ junk.
      disconnect_slot_lem junk (store_signal w s.address after) after id made (omega arith)
      ∙ rw (found.0, found.1) refl;
}
  where
    id : ℕ
    id = s.slot_id_counter + 1

    wraps : id % 2 ^ 32 ≡ id
    wraps = omega arith

    new : Slot F
    new = record { connection = to_slot s.address id; function = f }

    after : Signal F
    after = record s { slot_id_counter = id; slots = s.slots ++ new ∷ [] }

    made : IsSignal (store_signal w s.address after) after
    made = record {
      alive = rw (==_refl s.address) refl;
      ordered = Ordered-append s.address 0 s.slot_id_counter id s.slots f v.ordered (omega arith);
    }

    found : (has id (s.slots ++ new ∷ []) ≡ true) × (without id (s.slots ++ new ∷ []) ≡ s.slots)
    found = without_last s.address 0 s.slot_id_counter id s.slots f v.ordered (omega arith)

-- A connection that was reset, or whose signal is gone, is not valid, and disconnecting it fails and
-- changes nothing.
pub disconnect_gone :
    {F : Type 0} (junk a id : ℕ) (w : World F)
    → (disconnect junk w (no_connection junk) ≡ (false, no_connection junk, w))
      × (is_valid (destroy_signal w a) (to_slot a id) ≡ false)
      × (disconnect junk (destroy_signal w a) (to_slot a id)
          ≡ (false, to_slot a id, destroy_signal w a))
unfolding disconnect destroy_signal is_valid
disconnect_gone junk a id w = (refl, ground (arith, ==_refl a), ground (arith, ==_refl a))
