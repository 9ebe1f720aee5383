-- ===== src/Rpc/Transport.antt =====
-- The arguments of a call arrive as they were given, if the receiver evaluates them from the right.
use mathlib.Core.List.{reverse, reverse-cons}
use enki_net.Common.{
  ℕ, ◌^◌, ◌≤◌, ◌<◌, ◌≡◌, refl, sym, ap, ◌∙◌, List, [], ◌∷◌, ◌++◌, append-nil, append_assoc, map,
  true, false, length, ok, arith,
}
use enki_net.Packet.{Packet, PacketHeader, le_bytes, of_header}
use enki_net.Packet.Codec.{element_bytes, put_number, get_number}
use enki_net.Packet.Laws.{
  Writes, Appends, Reads, Writes-bind, Reads-bind, Reads-map, Reads-pure, written,
}
use enki_net.Packet.Transmission.{transmit, transmit-Reads, new_packet_room}
use enki_net.Packet.RoundTrip.{put_number-Writes, get_number-Reads}
use enki_net.Rpc.Args.{put_args, get_args, get_args_right, get_args_left}

-- The sizes and the values of arguments, and their bytes in a packet.
abbrev pub sizes : List (ℕ × ℕ) → List ℕ
sizes [] = []
sizes ((w, x) ∷ args) = w ∷ sizes args

abbrev pub values : List (ℕ × ℕ) → List ℕ
values [] = []
values ((w, x) ∷ args) = x ∷ values args

abbrev pub args_bytes : List (ℕ × ℕ) → List ℕ
args_bytes [] = []
args_bytes ((w, x) ∷ args) = args_bytes args ++ le_bytes w x

-- Each value fits its size.
abbrev pub ArgsFit : List (ℕ × ℕ) → Type 0
ArgsFit [] = Unit {0}
ArgsFit ((w, x) ∷ args) = (x < 256 ^ w) × ArgsFit args

Appends-refl : (p : Packet) → p.bytes_written ≤ length p.bytes → Appends p [] p
Appends-refl p h = record {
  content = sym (append-nil (written p));
  count = omega arith;
  room = h;
  same_info = refl;
  same_header = refl;
  same_reader = refl;
  same_bits = refl;
}

pub put_args-Writes :
    (args : List (ℕ × ℕ)) (p : Packet)
    → p.bytes_written ≤ length p.bytes
    → Writes (put_args args p) p (args_bytes args)
unfolding put_args
put_args-Writes [] p h = (p, refl, Appends-refl p h)
put_args-Writes ((w, x) ∷ args) p h =
    Writes-bind (put_args args p) (put_number w x) p (args_bytes args) (le_bytes w x)
      (put_args-Writes args p h) (put_number-Writes w x)

-- Reading a first, possibly empty, block and then a number.
pub get_args_right-cons :
    (w x : ℕ) (args : List (ℕ × ℕ))
    → x < 256 ^ w
    → Reads (get_args_right (sizes args)) (values args) (args_bytes args)
    → Reads (get_args_right (w ∷ sizes args)) (x ∷ values args) (args_bytes args ++ le_bytes w x)
unfolding get_args_right
get_args_right-cons w x args h ih =
    Reads-bind (get_args_right (sizes args)) _ (values args) (x ∷ values args) (args_bytes args)
      (le_bytes w x) ih
      (Reads-map (get_number w) (λ y. y ∷ values args) x (le_bytes w x) (get_number-Reads w x h))

-- What fillPacket wrote is read back in order by a call that evaluates its arguments from the right.
pub get_args-Reads :
    (args : List (ℕ × ℕ))
    → ArgsFit args
    → Reads (get_args true (sizes args)) (values args) (args_bytes args)
unfolding get_args
get_args-Reads args h = go args h
  where
    go :
        (xs : List (ℕ × ℕ))
        → ArgsFit xs
        → Reads (get_args_right (sizes xs)) (values xs) (args_bytes xs)
    go [] g = Reads-pure []
    go ((w, x) ∷ xs) g = get_args_right-cons w x xs g.0 (go xs g.1)

-- Arguments of one size.
abbrev pub SameSize : ℕ → List (ℕ × ℕ) → Type 0
SameSize w [] = Unit {0}
SameSize w ((v, x) ∷ args) = (v ≡ w) × SameSize w args

-- `n` parameters of one size.
abbrev pub params : ℕ → List ℕ → List ℕ
params w xs = map (λ _. w) xs

abbrev AllFit : ℕ → List ℕ → Type 0
AllFit w [] = Unit {0}
AllFit w (x ∷ xs) = (x < 256 ^ w) × AllFit w xs

AllFit-snoc : (w x : ℕ) (xs : List ℕ) → AllFit w xs → x < 256 ^ w → AllFit w (xs ++ x ∷ [])
AllFit-snoc w x [] h g = (g, tt)
AllFit-snoc w x (y ∷ xs) h g = (h.0, AllFit-snoc w x xs h.1 g)

AllFit-reverse :
    (w : ℕ) (args : List (ℕ × ℕ))
    → SameSize w args
    → ArgsFit args
    → AllFit w (reverse (values args))
AllFit-reverse w [] h g = tt
AllFit-reverse w ((v, x) ∷ args) h g =
    rw (reverse-cons x (values args))
      (AllFit-snoc w x (reverse (values args)) (AllFit-reverse w args h.1 g.1) (rw h.0 at g.0))

element_bytes-snoc :
    (w x : ℕ) (xs : List ℕ) → element_bytes w (xs ++ x ∷ []) ≡ element_bytes w xs ++ le_bytes w x
element_bytes-snoc w x [] = append-nil (le_bytes w x)
element_bytes-snoc w x (y ∷ xs) =
    ap (λ (t : List ℕ). le_bytes w y ++ t) (element_bytes-snoc w x xs)
    ∙ sym (append_assoc (le_bytes w y) (element_bytes w xs) (le_bytes w x))

args_bytes-reverse :
    (w : ℕ) (args : List (ℕ × ℕ))
    → SameSize w args
    → args_bytes args ≡ element_bytes w (reverse (values args))
args_bytes-reverse w [] h = refl
args_bytes-reverse w ((v, x) ∷ args) h =
    rw (reverse-cons x (values args), element_bytes-snoc w x (reverse (values args)), h.0)
      (ap (λ (t : List ℕ). t ++ le_bytes w x) (args_bytes-reverse w args h.1))

params-snoc : (w x : ℕ) (xs : List ℕ) → params w (xs ++ x ∷ []) ≡ w ∷ params w xs
params-snoc w x [] = refl
params-snoc w x (y ∷ xs) = ap (◌∷◌ w) (params-snoc w x xs)

params-reverse :
    (w : ℕ) (args : List (ℕ × ℕ)) → SameSize w args → sizes args ≡ params w (reverse (values args))
params-reverse w [] h = refl
params-reverse w ((v, x) ∷ args) h =
    rw (reverse-cons x (values args), params-snoc w x (reverse (values args)), h.0)
      (ap (◌∷◌ w) (params-reverse w args h.1))

get_args_left-Reads :
    (w : ℕ) (xs : List ℕ)
    → AllFit w xs
    → Reads (get_args_left (params w xs)) xs (element_bytes w xs)
unfolding get_args_left
get_args_left-Reads w [] h = Reads-pure []
get_args_left-Reads w (x ∷ xs) h =
    Reads-bind (get_number w) _ x (x ∷ xs) (le_bytes w x) (element_bytes w xs)
      (get_number-Reads w x h.0)
      (Reads-map (get_args_left (params w xs)) (◌∷◌ x) xs (element_bytes w xs)
        (get_args_left-Reads w xs h.1))

-- What fillPacket wrote for arguments of one size is read back in the reverse order by a call that
-- evaluates its arguments from the left.
pub get_args_left-reverse :
    (w : ℕ) (args : List (ℕ × ℕ))
    → SameSize w args
    → ArgsFit args
    → Reads (get_args false (sizes args)) (reverse (values args)) (args_bytes args)
unfolding get_args
get_args_left-reverse w args h g =
    rw (args_bytes-reverse w args h, params-reverse w args h)
      (get_args_left-Reads w (reverse (values args)) (AllFit-reverse w args h g))

-- Arguments of one size, each of which fits it, written to a new packet by fillPacket, sent under any
-- header and received, are read back in order by a call that evaluates its arguments from the right,
-- and in the reverse order by one that evaluates them from the left.
pub args_transmission :
    (w : ℕ) (args : List (ℕ × ℕ)) (h h' : PacketHeader)
    → SameSize w args
    → ArgsFit args
    → h'.time_sent < 2 ^ 32
    → (transmit (put_args args) (get_args true (sizes args)) h h' ≡ ok (h', values args))
      × (transmit (put_args args) (get_args false (sizes args)) h h'
          ≡ ok (h', reverse (values args)))
args_transmission w args h h' same each fits =
    let put = put_args-Writes args (of_header h) (new_packet_room h) in
    (
      transmit-Reads (put_args args) (get_args true (sizes args)) (args_bytes args) (values args) h
          h' put (get_args-Reads args each) fits,
      transmit-Reads (put_args args) (get_args false (sizes args)) (args_bytes args)
          (reverse (values args)) h h' put (get_args_left-reverse w args same each) fits,
    )
