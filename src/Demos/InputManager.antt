-- ===== src/Demos/InputManager.antt =====
-- demos/Asteroids/src/Managers/InputManager.cpp, and its copy in demos/Shooter: the states of keys and
-- mouse buttons from frame to frame. What SFML says of a key in a frame, and how many keys and buttons it knows, are
-- arguments. The positions of the mouse, which are SFML's, are left out.
use enki_net.Common.{
  ℕ, zero, suc, ◌+◌, ◌<◌, ◌≡◌, refl, ap, ◌∙◌, Bool, true, false, not, ◌&&◌, List, [], ◌∷◌,
  if◌then◌else◌, Outcome, ok, fault, ◌>>=◌, replicate, arith,
}

pub data InputState : Type 0 where
  released pressed down up : InputState

pub record InputManager : Type 0 where
  pub keys_last_frame : List InputState
  pub keys_this_frame : List InputState
  pub mouse_buttons_last_frame : List InputState
  pub mouse_buttons_this_frame : List InputState

-- The constructor.
abbrev pub new_input_manager : ℕ → ℕ → InputManager
new_input_manager keys buttons = record {
  keys_last_frame = replicate keys up;
  keys_this_frame = replicate keys up;
  mouse_buttons_last_frame = replicate buttons up;
  mouse_buttons_this_frame = replicate buttons up;
}

-- The tests on the last state of a key, for what SFML says of it now.
unfoldable pub next_state : InputState → Bool → InputState
next_state released now = if now then pressed else up
next_state up now = if now then pressed else up
next_state pressed now = if now then down else released
next_state down now = if now then down else released

-- The loop over the keys from `i` on, or over the buttons.
unfoldable pub next_states : (ℕ → Bool) → ℕ → List InputState → List InputState
unfolding next_state
next_states now i [] = []
next_states now i (s ∷ ss) = next_state s (now i) ∷ next_states now (i + 1) ss

unfoldable pub update : (ℕ → Bool) → (ℕ → Bool) → InputManager → InputManager
unfolding next_states
update keys buttons m = record {
  keys_last_frame = m.keys_this_frame;
  keys_this_frame = next_states keys 0 m.keys_this_frame;
  mouse_buttons_last_frame = m.mouse_buttons_this_frame;
  mouse_buttons_this_frame = next_states buttons 0 m.mouse_buttons_this_frame;
}

-- An element of a std::array: behind the end this is undefined.
abbrev pub state_at : ℕ → List InputState → Outcome InputState
state_at k [] = fault
state_at zero (s ∷ ss) = ok s
state_at (suc k) (s ∷ ss) = state_at k ss

abbrev is_up_state : InputState → Bool
is_up_state released = true
is_up_state pressed = false
is_up_state down = false
is_up_state up = true

abbrev is_released_state : InputState → Bool
is_released_state released = true
is_released_state pressed = false
is_released_state down = false
is_released_state up = false

abbrev is_pressed_state : InputState → Bool
is_pressed_state released = false
is_pressed_state pressed = true
is_pressed_state down = false
is_pressed_state up = false

abbrev is_down_state : InputState → Bool
is_down_state released = false
is_down_state pressed = true
is_down_state down = true
is_down_state up = false

unfoldable pub is_key_up : ℕ → InputManager → Outcome Bool
is_key_up key m = state_at key m.keys_this_frame >>= λ s. ok (is_up_state s)

unfoldable pub is_key_released : ℕ → InputManager → Outcome Bool
is_key_released key m = state_at key m.keys_this_frame >>= λ s. ok (is_released_state s)

unfoldable pub is_key_pressed : ℕ → InputManager → Outcome Bool
is_key_pressed key m = state_at key m.keys_this_frame >>= λ s. ok (is_pressed_state s)

unfoldable pub is_key_down : ℕ → InputManager → Outcome Bool
is_key_down key m = state_at key m.keys_this_frame >>= λ s. ok (is_down_state s)

unfoldable pub is_mouse_button_up : ℕ → InputManager → Outcome Bool
is_mouse_button_up b m = state_at b m.mouse_buttons_this_frame >>= λ s. ok (is_up_state s)

unfoldable pub is_mouse_button_pressed : ℕ → InputManager → Outcome Bool
is_mouse_button_pressed b m = state_at b m.mouse_buttons_this_frame >>= λ s. ok (is_pressed_state s)

unfoldable pub is_mouse_button_released : ℕ → InputManager → Outcome Bool
is_mouse_button_released b m =
    state_at b m.mouse_buttons_this_frame >>= λ s. ok (is_released_state s)

unfoldable pub is_mouse_button_down : ℕ → InputManager → Outcome Bool
is_mouse_button_down b m = state_at b m.mouse_buttons_this_frame >>= λ s. ok (is_down_state s)

-- What SFML said in a frame, and what it said last; before the first frame nothing is held.
abbrev pub Frame : Type 0
Frame = (ℕ → Bool) × (ℕ → Bool)

abbrev pub held : ℕ → List Frame → Bool
held key [] = false
held key (f ∷ fs) = f.0 key

-- The manager after frames, the last one first.
abbrev pub after_frames : ℕ → ℕ → List Frame → InputManager
after_frames keys buttons [] = new_input_manager keys buttons
after_frames keys buttons (f ∷ fs) = update f.0 f.1 (after_frames keys buttons fs)

state_of : Bool → Bool → InputState
state_of before now =
    if before then (if now then down else released) else (if now then pressed else up)

next_state-state_of : (a b c : Bool) → next_state (state_of a b) c ≡ state_of b c
unfolding next_state state_of
next_state-state_of a true true = ground arith
next_state-state_of a true false = ground arith
next_state-state_of a false true = ground arith
next_state-state_of a false false = ground arith

state_at-next_states :
    (now : ℕ → Bool) (k i : ℕ) (ss : List InputState) (s : InputState)
    → state_at k ss ≡ ok s
    → state_at k (next_states now i ss) ≡ ok (next_state s (now (i + k)))
unfolding next_states
state_at-next_states now k i [] s h = absurd (cc h)
state_at-next_states now zero i (t ∷ ss) s h =
    let same : t ≡ s = cc h in let at : i + 0 ≡ i = omega arith in rw (same, at) refl
state_at-next_states now (suc k) i (t ∷ ss) s h =
    let at : i + 1 + k ≡ i + suc k = omega arith in
    state_at-next_states now k (i + 1) ss s h ∙ ap (λ (j : ℕ). ok (next_state s (now j))) at

state_at-replicate : (k n : ℕ) → k < n → state_at k (replicate n up) ≡ ok up
state_at-replicate k zero h = absurd (omega arith)
state_at-replicate zero (suc n) h = refl
state_at-replicate (suc k) (suc n) h = state_at-replicate k n (omega arith)

-- What was held in the frame before the last one.
abbrev pub held_before : ℕ → List Frame → Bool
held_before key [] = false
held_before key (f ∷ fs) = held key fs

state_at-after_frames :
    (keys buttons key : ℕ) (fs : List Frame)
    → key < keys
    → state_at key (after_frames keys buttons fs).keys_this_frame
      ≡ ok (state_of (held_before key fs) (held key fs))
unfolding update state_of
state_at-after_frames keys buttons key [] h = state_at-replicate key keys h
state_at-after_frames keys buttons key (f ∷ fs) h =
    state_at-next_states f.0 key 0 (after_frames keys buttons fs).keys_this_frame _
      (state_at-after_frames keys buttons key fs h)
    ∙ ap ok (next_state-state_of (held_before key fs) (held key fs) (f.0 (0 + key)))
    ∙ ap (λ (j : ℕ). ok (state_of (held key fs) (f.0 j))) (omega arith)

-- What the four tests on a key say.
abbrev pub KeyTests : ℕ → InputManager → Bool → Bool → Type 0
KeyTests key m before now =
    (is_key_pressed key m ≡ ok (not before && now))
    × (is_key_released key m ≡ ok (before && not now))
    × (is_key_down key m ≡ ok now)
    × (is_key_up key m ≡ ok (not now))

-- After any frames, for each key that SFML knows: the key counts as pressed in the frame in which it is held for the
-- first time since it was not held, as released in the frame in which it is not held for the first time since it was,
-- as down as long as it is held, and else as up.
pub after_frames-KeyTests :
    (keys buttons key : ℕ) (fs : List Frame)
    → key < keys
    → KeyTests key (after_frames keys buttons fs) (held_before key fs) (held key fs)
unfolding is_key_pressed is_key_released is_key_down is_key_up
after_frames-KeyTests keys buttons key fs h =
    let at = state_at-after_frames keys buttons key fs h in
    let b = held_before key fs in
    let n = held key fs in
    (
      rw at (ap ok (pressed_lem b n)),
      rw at (ap ok (released_lem b n)),
      rw at (ap ok (down_lem b n)),
      rw at (ap ok (up_lem b n)),
    )
  where
    pressed_lem : (a b : Bool) → is_pressed_state (state_of a b) ≡ (not a && b)
    pressed_lem a b = unfold state_of in ground arith

    released_lem : (a b : Bool) → is_released_state (state_of a b) ≡ (a && not b)
    released_lem a b = unfold state_of in ground arith

    down_lem : (a b : Bool) → is_down_state (state_of a b) ≡ b
    down_lem a b = unfold state_of in ground arith

    up_lem : (a b : Bool) → is_up_state (state_of a b) ≡ not b
    up_lem a b = unfold state_of in ground arith
