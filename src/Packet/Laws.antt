-- ===== src/Packet/Laws.antt =====
-- What a write appends and what a read takes off, in terms of byte strings.
use enki_net.Common.{
  ℕ, ◌+◌, ◌*◌, ◌≤◌, ◌≡◌, refl, sym, ap, ◌∙◌, List, [], ◌++◌, append_assoc, false, some, length,
  take, drop, resize, ltb, le→ltb, Bool-cases, inl, inr, ltb→le, length-append, length-resize,
  length-poke_at, length-drop, take-append, drop-append, drop-drop, take-resize, take-poke_at,
  Outcome, ok, ◌>>=◌, arith, if◌then◌else◌,
}
use enki_net.Packet.{Packet, serialize, deserialize}

-- The bytes written so far.
abbrev pub written : Packet → List ℕ
written p = take p.bytes_written p.bytes

-- `q` is `p` with `ds` written behind what it held, and nothing else changed.
pub record Appends (p : Packet) (ds : List ℕ) (q : Packet) : Type 0 where
  pub content : written q ≡ written p ++ ds
  pub count : q.bytes_written ≡ p.bytes_written + length ds
  pub room : q.bytes_written ≤ length q.bytes
  pub same_info : q.info ≡ p.info
  pub same_header : q.header ≡ p.header
  pub same_reader : q.bytes_read ≡ p.bytes_read
  pub same_bits : q.bits_read ≡ p.bits_read

-- A write that returns, and appends `ds`.
abbrev pub Writes : Outcome Packet → Packet → List ℕ → Type 0
Writes r p ds = (q : Packet) × (r ≡ ok q) × Appends p ds q

grown : Packet → ℕ → List ℕ
grown p end = if ltb (length p.bytes) end then resize (end * 2) 0 p.bytes else p.bytes

grown-room : (p : Packet) (end : ℕ) → end ≤ length (grown p end)
unfolding grown
grown-room p end = elim (Bool-cases (ltb (length p.bytes) end)) [
  | inl h ↦ rw (h, length-resize (end * 2) 0 p.bytes) (omega arith)
  | inr h ↦ rw h (ltb→le _ _ h)
]

grown-take :
    (p : Packet) (end : ℕ)
    → p.bytes_written ≤ length p.bytes
    → p.bytes_written ≤ end
    → take p.bytes_written (grown p end) ≡ take p.bytes_written p.bytes
unfolding grown
grown-take p end h g = elim (Bool-cases (ltb (length p.bytes) end)) [
  | inl e ↦ rw e (take-resize p.bytes_written (end * 2) 0 p.bytes h (omega arith))
  | inr e ↦ rw e
]

-- From a write cursor inside the buffer, serialize returns, appends the bytes to what was written, keeps
-- the header, the info and the read cursor, and leaves the write cursor inside the buffer.
pub serialize-Writes :
    (ds : List ℕ) (p : Packet)
    → p.bytes_written ≤ length p.bytes
    → Writes (serialize (some ds) p) p ds
unfolding serialize grown
serialize-Writes ds p h = (
  _,
  refl,
  record {
    content =
        take-poke_at p.bytes_written ds room (grown-room p end)
        ∙ ap (λ (t : List ℕ). t ++ ds) (grown-take p end h (omega arith));
    count = refl;
    room = rw (length-poke_at p.bytes_written ds room) (grown-room p end);
    same_info = refl;
    same_header = refl;
    same_reader = refl;
    same_bits = refl;
  },
)
  where
    end : ℕ
    end = p.bytes_written + length ds

    room : List ℕ
    room = grown p end

-- Two writes in a row append one string after the other.
pub Writes-bind :
    (r : Outcome Packet) (f : Packet → Outcome Packet) (p : Packet) (ds es : List ℕ)
    → Writes r p ds
    → ((q : Packet) → q.bytes_written ≤ length q.bytes → Writes (f q) q es)
    → Writes (r >>= f) p (ds ++ es)
Writes-bind r f p ds es (q, e, a) next = rw e (
  s,
  d,
  record {
    content = b.content ∙ ap (λ (t : List ℕ). t ++ es) a.content ∙ append_assoc (written p) ds es;
    count = omega (arith, a.count, b.count, length-append ds es);
    room = b.room;
    same_info = b.same_info ∙ a.same_info;
    same_header = b.same_header ∙ a.same_header;
    same_reader = b.same_reader ∙ a.same_reader;
    same_bits = b.same_bits ∙ a.same_bits;
  },
)
  where
    second : Writes (f q) q es
    second = next q a.room

    s : Packet
    s = second.0

    d : f q ≡ ok s
    d = second.1

    b : Appends q es s
    b = second.2

-- What stands behind the read cursor, at the border of a byte.
pub record Ready (p : Packet) (bs : List ℕ) : Type 0 where
  pub inside : p.bytes_read ≤ length p.bytes
  pub aligned : p.bits_read ≡ 8
  pub unread : drop p.bytes_read p.bytes ≡ bs

abbrev pub advance : Packet → ℕ → Packet
advance p n = record p { bytes_read = p.bytes_read + n; bits_read = 8 }

-- A reader that takes `v` off every packet whose unread part begins with `bs`.
abbrev pub Reads : {A : Type 0} → (Packet → Outcome (A × Packet)) → A → List ℕ → Type 0
Reads f v bs =
    (p : Packet) (rest : List ℕ) → Ready p (bs ++ rest) → f p ≡ ok (v, advance p (length bs))

pub Ready-length :
    (p : Packet) (bs rest : List ℕ)
    → Ready p (bs ++ rest)
    → p.bytes_read + length bs + length rest ≡ length p.bytes
Ready-length p bs rest h =
    omega
      (arith, h.inside, length-drop p.bytes_read p.bytes, ap length h.unread, length-append bs rest)

pub Ready-advance :
    (p : Packet) (bs rest : List ℕ) → Ready p (bs ++ rest) → Ready (advance p (length bs)) rest
Ready-advance p bs rest h = record {
  inside = omega (arith, Ready-length p bs rest h);
  aligned = refl;
  unread =
      sym (drop-drop p.bytes_read (length bs) p.bytes)
      ∙ ap (λ (t : List ℕ). drop (length bs) t) h.unread
      ∙ drop-append bs rest;
}

pub deserialize-Reads : (bs : List ℕ) → Reads (deserialize false (length bs)) bs bs
unfolding deserialize
deserialize-Reads bs p rest h =
    rw
      (
        le→ltb (length p.bytes) (p.bytes_read + length bs)
            (omega (arith, Ready-length p bs rest h)),
        h.unread,
        take-append bs rest,
      )
      refl

pub Reads-bind :
    {A B : Type 0} (f : Packet → Outcome (A × Packet)) (k : A × Packet → Outcome (B × Packet))
    (v : A) (w : B) (bs cs : List ℕ)
    → Reads f v bs
    → Reads (λ q. k (v, q)) w cs
    → Reads (λ p. f p >>= k) w (bs ++ cs)
Reads-bind f k v w bs cs first second p rest h = rw (first p (cs ++ rest) h') (
    second (advance p (length bs)) rest (Ready-advance p bs (cs ++ rest) h')
    ∙ ap (λ (n : ℕ). ok (w, record p { bytes_read = n; bits_read = 8 }))
        (omega (arith, length-append bs cs)))
  where
    h' : Ready p (bs ++ (cs ++ rest))
    h' = record {
      inside = h.inside;
      aligned = h.aligned;
      unread = h.unread ∙ append_assoc bs cs rest;
    }

pub Reads-map :
    {A B : Type 0} (f : Packet → Outcome (A × Packet)) (g : A → B) (v : A) (bs : List ℕ)
    → Reads f v bs
    → Reads (λ p. f p >>= λ (a, q). ok (g a, q)) (g v) bs
Reads-map f g v bs first p rest h = rw (first p rest h)

-- Reading nothing.
pub Reads-pure : {A : Type 0} (v : A) → Reads (λ p. ok (v, p)) v []
Reads-pure v p rest h =
    let e : p.bytes_read + 0 ≡ p.bytes_read = omega arith in
    λ i. ok (v, record p { bytes_read = sym e i; bits_read = h.aligned i })
