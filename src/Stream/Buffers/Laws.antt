-- ===== src/Stream/Buffers/Laws.antt =====
-- What `stream_init` establishes, and that every buffer of a stream is freed once.
use quartz_composer_open_kin.Prelude.{
  ℕ, ◌+◌, ◌-◌, ◌*◌, ◌/◌, ◌%◌, ◌≤◌, ◌<◌, ◌≡◌, ◌⊎◌, false, none, some, List, arith, length,
  length-replicate, replicate, refl, inl, inr, ◌==◌, if◌then◌else◌, Bool-cases, ==_iff,
}
use native.Mathlib.Nat.{div-add-mod, mod-lt, div-eq_of_lt-le, add-mul, mul_comm}
use quartz_composer_open_kin.Memory.{Heap, malloc, update}
use quartz_composer_open_kin.Stream.{PacketStream}
use quartz_composer_open_kin.Stream.Buffers.{init_bufs, init_raw, init_sizes, stream_init}
use quartz_composer_open_kin.Stream.Process.Stages.{IsSized}

some_rows : (q size : ℕ) → 0 < q * size → 0 < q
some_rows q size h = grind arith

-- The quotient of a number between two multiples.
quotient : (n q size : ℕ) → q * size ≤ n → n < q * size + size → n / size ≡ q
quotient n q size l u = div-eq_of_lt-le size l (omega (arith, add-mul q 1 size))

-- `⌈frame / size⌉` packets, the last of which is what is left.
ceil_div :
    (frame size : ℕ)
    → 0 < size
    → 0 < frame
    → let last = if frame % size == 0 then size else frame % size in
      (0 < last)
      × (last ≤ size)
      × ((frame + size - 1) / size * size + last ≡ frame + size)
      × (0 < (frame + size - 1) / size)
ceil_div frame size p f =
    let whole = div-add-mod frame size in
    let small : frame % size < size = mod-lt frame p in
    let comm = mul_comm size (frame / size) in
    elim (Bool-cases (frame % size == 0)) [
      | inl e ↦
          (let none_left = (==_iff (frame % size) 0).0 e in
            let k = quotient (frame + size - 1) (frame / size) size (omega arith) (omega arith) in
            rw (e, k) (p, omega arith, omega arith, some_rows (frame / size) size (omega arith)))
      | inr ne ↦
          (let left : 0 < frame % size = ground arith in
            let row = add-mul (frame / size) 1 size in
            let k =
              quotient (frame + size - 1) (frame / size + 1) size (omega arith) (omega arith) in
            rw (ne, k) (left, omega arith, omega arith, omega arith))
    ]

-- New blocks have numbers that nothing uses yet.
abbrev pub IsFresh : Heap → Type 0
IsFresh h = (q : ℕ) → h.next ≤ q → h.block q ≡ none

-- The client's buffer, where it gave one, holds a frame.
abbrev pub UserFits : PacketStream → ℕ → Heap → Type 0
UserFits s plen h =
    (s.usr_buf ≡ none)
    ⊎ ((u : ℕ) × (b : List ℕ) × (s.usr_buf ≡ some u) × (h.block u ≡ some b) × (plen ≤ length b))

-- `raw_buf` points to a block of at least a frame.
abbrev pub HasRaw : PacketStream → Heap → Type 0
HasRaw s h =
    (p : ℕ) × (buf : List ℕ) × (s.raw_buf ≡ some p)
    × (h.block p ≡ some buf)
    × (s.frame_size ≤ length buf)

malloc-fits :
    (n : ℕ) (h : Heap)
    → n ≤ h.room
    → malloc n h ≡ (
      some h.next,
      record h {
        next = h.next + 1;
        room = h.room - n;
        block = update h.block h.next (some (replicate n h.fill));
      },
    )
unfolding malloc
malloc-fits n h l = ground arith

init_sizes-IsSized : (s : PacketStream) → 0 < s.pkt_size → 0 < s.frame_size → IsSized (init_sizes s)
unfolding init_sizes
init_sizes-IsSized s p f =
    let c = ceil_div s.frame_size s.pkt_size p f in
    record { some_size = p; some_last = c.0; last_fits = c.1; some_pkts = c.3; fill = c.2 }

-- The stages keep what the next ones read.
init_bufs-frame :
    (s : PacketStream) (plen : ℕ) (h : Heap)
    → ((init_bufs s plen h).0.pkt_size ≡ s.pkt_size) × ((init_bufs s plen h).0.usr_buf ≡ s.usr_buf)
unfolding init_bufs
init_bufs-frame s plen h = ground arith

init_bufs-proc :
    (s : PacketStream) (plen : ℕ) (h : Heap)
    → plen ≤ h.room
    → UserFits s plen h
    → (p : ℕ) × (buf : List ℕ) × ((init_bufs s plen h).0.proc_buf ≡ some p)
      × ((init_bufs s plen h).1.block p ≡ some buf)
      × (plen ≤ length buf)
      × (h.room - plen ≤ (init_bufs s plen h).1.room)
unfolding init_bufs
init_bufs-proc s plen h l (inl e) =
    rw (e, malloc-fits plen h l)
      (
        h.next,
        replicate plen h.fill,
        refl,
        ground arith,
        omega (arith, length-replicate plen h.fill),
        omega arith,
      )
init_bufs-proc s plen h l (inr (u, b, e, f, g)) = (u, b, rw e, rw e f, g, rw e (omega arith))

init_raw-HasRaw :
    (s : PacketStream) (rlen plen : ℕ) (h : Heap) (p : ℕ) (buf : List ℕ)
    → rlen ≤ h.room
    → s.proc_buf ≡ some p
    → h.block p ≡ some buf
    → plen ≤ length buf
    → HasRaw (init_raw s rlen plen h).0 (init_raw s rlen plen h).1
unfolding init_raw
init_raw-HasRaw s rlen plen h p buf l e f g = elim (Bool-cases (rlen == 0)) [
  | inl z ↦ rw z (p, buf, e, f, g)
  | inr n ↦
      rw (n, malloc-fits rlen h l)
        (
          h.next,
          replicate rlen h.fill,
          refl,
          ground arith,
          omega (arith, length-replicate rlen h.fill),
        )
]

init_raw-frame :
    (s : PacketStream) (rlen plen : ℕ) (h : Heap)
    → 0 < plen
    → ((init_raw s rlen plen h).0.pkt_size ≡ s.pkt_size)
      × (0 < (init_raw s rlen plen h).0.frame_size)
unfolding init_raw
init_raw-frame s rlen plen h l = ground arith

abbrev reset : PacketStream → PacketStream
reset s = record s { valid_frames = 0; synced = false }

-- Readiness. Where the sizes are positive, memory suffices and the client's buffer, if it gave one,
-- holds the processed frame, `stream_init` leaves a stream that `stream_process` handles safely: it
-- is sized, and `raw_buf` points to a block of at least a frame.
pub stream_init-ready :
    (s : PacketStream) (rlen plen : ℕ) (h : Heap)
    → 0 < s.pkt_size
    → 0 < plen
    → rlen + plen ≤ h.room
    → UserFits s plen h
    → IsSized (stream_init s rlen plen h).0
      × HasRaw (stream_init s rlen plen h).0 (stream_init s rlen plen h).1
unfolding stream_init
stream_init-ready s rlen plen h z l m u =
    let (p, buf, e, f, g, r) = init_bufs-proc (reset s) plen h (omega arith) u in
    let s₁ = (init_bufs (reset s) plen h).0 in
    let h₁ = (init_bufs (reset s) plen h).1 in
    let fr = init_raw-frame s₁ rlen plen h₁ l in
    let size : 0 < (init_raw s₁ rlen plen h₁).0.pkt_size =
      omega (arith, fr.0, init_bufs-frame (reset s) plen h) in
    (
      init_sizes-IsSized (init_raw s₁ rlen plen h₁).0 size fr.1,
      unfold init_sizes in init_raw-HasRaw s₁ rlen plen h₁ p buf (omega arith) e f g,
    )
