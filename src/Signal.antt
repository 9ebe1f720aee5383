-- ===== src/Signal.antt =====
-- src/EnkiNet/Signals: Signal.hpp, Slot.hpp, Connection.hpp, Connection.cpp and Disconnector.hpp. A
-- signal is known by the address of its disconnector, which it alone owns, so a weak_ptr to the
-- disconnector is expired exactly when the signal is gone. All signals that are alive are the world.
-- A callable is a value of a type `F`, and an empty std::function is `none`. Callbacks neither
-- connect to nor disconnect from the signal that is calling them.
pub mod Laws
use enki_net.Common.{
  ℕ, ◌+◌, ◌%◌, ◌^◌, Bool, true, false, not, ◌&&◌, List, [], ◌∷◌, ◌++◌, Option, none, some, ◌==◌,
  if◌then◌else◌, Outcome, ok, throws, invalid_function,
}

-- `target` is the weak_ptr to the disconnector; `none` is an empty one.
pub record Connection : Type 0 where
  pub target : Option ℕ
  pub slot_id : ℕ

pub record Slot (F : Type 0) : Type 0 where
  pub connection : Connection
  pub function : F

pub record Signal (F : Type 0) : Type 0 where
  pub address : ℕ
  pub slot_id_counter : ℕ
  pub slots : List (Slot F)

-- The signals that are alive, by the addresses of their disconnectors.
abbrev pub World : Type 0 → Type 0
World F = ℕ → Option (Signal F)

-- Signal()
pub new_signal : {F : Type 0} → ℕ → Signal F
new_signal a = record { address = a; slot_id_counter = 0; slots = [] }

-- weak_ptr::lock and weak_ptr::expired
abbrev pub lock : {F : Type 0} → World F → Connection → Option (Signal F)
lock w c = elim c.target [ none ↦ none | some a ↦ w a ]

abbrev pub expired : {F : Type 0} → World F → Connection → Bool
expired w c = elim (lock w c) [ none ↦ true | some s ↦ false ]

-- Connection::operator bool
unfoldable pub is_valid : {F : Type 0} → World F → Connection → Bool
is_valid w c = not (c.slot_id == 0) && not (expired w c)

abbrev pub locked_address : {F : Type 0} → World F → Connection → Option ℕ
locked_address w c = elim (lock w c) [ none ↦ none | some s ↦ some s.address ]

abbrev pub same_address : Option ℕ → Option ℕ → Bool
same_address none none = true
same_address none (some b) = false
same_address (some a) none = false
same_address (some a) (some b) = a == b

-- operator==(const Connection&, const Connection&): a locked null pointer equals another one.
unfoldable pub connection_eq : {F : Type 0} → World F → Connection → Connection → Bool
connection_eq w l r =
    l.slot_id == r.slot_id && same_address (locked_address w l) (locked_address w r)

-- connect, for a callable that may be empty.
unfoldable pub connect : {F : Type 0} → Option F → Signal F → Outcome (Connection × Signal F)
connect none s = throws invalid_function
connect (some f) s =
    let id = (s.slot_id_counter + 1) % 2 ^ 32 in
    let c : Connection = record { target = some s.address; slot_id = id } in
    ok (
      c,
      record s {
        slot_id_counter = id;
        slots = s.slots ++ record { connection = c; function = f } ∷ [];
      },
    )

-- emit: `call f` is what calling `f` with the arguments does to the state of the program.
unfoldable pub emit : {F S : Type 0} → (F → S → S) → List (Slot F) → S → S
emit call [] st = st
emit call (s ∷ ss) st = emit call ss (call s.function st)

pub record Erased (F : Type 0) : Type 0 where
  pub connection : Connection
  pub found : Bool
  pub kept : List (Slot F)

-- What the world becomes when the signal at `a` changes.
abbrev pub store_signal : {F : Type 0} → World F → ℕ → Signal F → World F
store_signal w a s b = if a == b then some s else w b

-- The slot id of a default-constructed Connection is not initialized: `junk` is what it holds.
module _ (junk : ℕ) where
  abbrev pub no_connection : Connection
  no_connection = record { target = none; slot_id = junk }

  -- The erase_if of Signal::disconnect; the connection is reset in the middle of it.
  unfoldable pub erase_slots : {F : Type 0} → World F → List (Slot F) → Connection → Bool → Erased F
  unfolding connection_eq
  erase_slots w [] c found = record { connection = c; found = found; kept = [] }
  erase_slots w (s ∷ ss) c found =
      let hit = erase_slots w ss no_connection true in
      let miss = erase_slots w ss c found in
      if connection_eq w c s.connection then hit else record miss { kept = s ∷ miss.kept }

  -- Signal::disconnect: whether it worked, the connection afterwards and the signal.
  unfoldable pub disconnect_slot :
      {F : Type 0} → World F → Connection → Signal F → Bool × Connection × Signal F
  unfolding erase_slots is_valid
  disconnect_slot w c s =
      let e = erase_slots w s.slots c false in
      if is_valid w c then (e.found, e.connection, record s { slots = e.kept }) else (false, c, s)

  -- Connection::disconnect, through the disconnector that it can lock.
  unfoldable pub disconnect : {F : Type 0} → World F → Connection → Bool × Connection × World F
  unfolding disconnect_slot
  disconnect w c = elim (lock w c) [
    | none ↦ (false, c, w)
    | some s ↦ let (done, c', s') = disconnect_slot w c s in (done, c', store_signal w s.address s')
  ]

  -- ~ManagedConnection
  unfoldable pub destroy_managed : {F : Type 0} → World F → Connection → World F
  unfolding disconnect
  destroy_managed w c = (disconnect w c).2

  -- ManagedConnection::operator=(ManagedConnection&&): the connection that is held afterwards.
  unfoldable pub assign_managed :
      {F : Type 0} → World F → Connection → Connection → Connection × World F
  unfolding disconnect connection_eq
  assign_managed w held c = if connection_eq w held c then (held, w) else (c, (disconnect w held).2)

-- ~Signal
unfoldable pub destroy_signal : {F : Type 0} → World F → ℕ → World F
destroy_signal w a b = if a == b then none else w b
