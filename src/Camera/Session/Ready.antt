-- ===== src/Camera/Session/Ready.antt =====
-- How a stream becomes ready: `stream_init` as `freenect_start_depth` and `freenect_start_video` of
-- libfreenect/src/cameras.c call it.
use quartz_composer_open_kin.Camera.Process.Safety.{StreamReady, FitsOrNull, FitsOrNull-shape}
use quartz_composer_open_kin.Camera.Switch.Laws.{stream_init-shape}
use quartz_composer_open_kin.Memory.{Heap, malloc, update}
use quartz_composer_open_kin.Memory.Bytes.{
  HoldsBytes, SameShape, SameShape-refl, SameShape-trans, Sound, Fits, Fits-shape,
  updated-HoldsBytes, AllBelow-replicate,
}
use quartz_composer_open_kin.Prelude.{
  ℕ, ◌+◌, ◌≤◌, ◌≡◌, true, false, some, List, arith, refl, replicate, length-replicate, inl, inr,
  Bool-cases, ==_iff, ◌==◌, leb, ◌∙◌,
}
use quartz_composer_open_kin.Stream.{PacketStream}
use quartz_composer_open_kin.Stream.Buffers.{init_bufs, init_raw, init_sizes, stream_init}
use quartz_composer_open_kin.Stream.Buffers.Laws.{IsFresh, UserFits, HasRaw}
use quartz_composer_open_kin.Stream.Process.Frames.{IsCamera}
use quartz_composer_open_kin.Stream.Process.Stages.{IsCounted}

-- What an allocation of bytes may do.
pub record Grows (h h' : Heap) : Type 0 where
  pub sound : Sound h h'
  pub fresh : IsFresh h'

pub Grows-refl : (h : Heap) → HoldsBytes h → IsFresh h → Grows h h
Grows-refl h b f = record { sound = record { bytes = b; shape = SameShape-refl h }; fresh = f }

pub malloc-Grows : (n : ℕ) (h : Heap) → HoldsBytes h → IsFresh h → Grows h (malloc n h).1
unfolding malloc
malloc-Grows n h b f = elim (Bool-cases (leb n h.room)) [
  | inl e ↦ rw e (record {
    sound = record {
      bytes =
          updated-HoldsBytes h _ h.next (replicate n h.fill) refl (λ r. refl)
            (AllBelow-replicate 256 n h.fill b.fill) b;
      shape = λ q c k. (c, elsewhere q c k, refl);
    };
    fresh = λ q l. ground (arith, f q (omega arith));
  })
  | inr e ↦ rw e (Grows-refl h b f)
]
  where
    elsewhere :
        (q : ℕ) (c : List ℕ)
        → h.block q ≡ some c
        → update h.block h.next (some (replicate n h.fill)) q ≡ some c
    elsewhere q c k = elim (Bool-cases (h.next == q)) [
      | inl s ↦ (let g = f q (omega (arith, (==_iff h.next q).0 s)) in ground arith)
      | inr s ↦ rw s k
    ]

malloc-Fits : (n : ℕ) (h : Heap) → n ≤ h.room → Fits n (malloc n h).0 (malloc n h).1
unfolding malloc
malloc-Fits n h l =
    let e : leb n h.room ≡ true = ground arith in
    rw e (h.next, replicate n h.fill, refl, ground arith, omega (arith, length-replicate n h.fill))

pub Grows-trans : (h h₁ h₂ : Heap) → Grows h h₁ → Grows h₁ h₂ → Grows h h₂
Grows-trans h h₁ h₂ f g = record {
  sound = record {
    bytes = g.sound.bytes;
    shape = SameShape-trans h h₁ h₂ f.sound.shape g.sound.shape;
  };
  fresh = g.fresh;
}

init_bufs-ready :
    (s : PacketStream) (plen : ℕ) (h : Heap)
    → plen ≤ h.room
    → HoldsBytes h
    → IsFresh h
    → UserFits s plen h
    → Grows h (init_bufs s plen h).1
      × Fits plen (init_bufs s plen h).0.proc_buf (init_bufs s plen h).1
      × FitsOrNull plen (init_bufs s plen h).0.lib_buf (init_bufs s plen h).1
unfolding init_bufs
init_bufs-ready s plen h l b f (inl e) =
    rw e (malloc-Grows plen h b f, malloc-Fits plen h l, inr (malloc-Fits plen h l))
init_bufs-ready s plen h l b f (inr (u, c, e, k, m)) =
    rw e (Grows-refl h b f, (u, c, refl, k, m), inl refl)

init_raw-ready :
    (s : PacketStream) (rlen plen : ℕ) (h : Heap)
    → HoldsBytes h
    → IsFresh h
    → Grows h (init_raw s rlen plen h).1
      × ((init_raw s rlen plen h).0.proc_buf ≡ s.proc_buf)
      × ((init_raw s rlen plen h).0.lib_buf ≡ s.lib_buf)
      × ((init_raw s rlen plen h).0.split_bufs ≡ false
          → (init_raw s rlen plen h).0.frame_size ≡ plen)
      × ((init_raw s rlen plen h).0.synced ≡ s.synced)
unfolding init_raw
init_raw-ready s rlen plen h b f = elim (Bool-cases (rlen == 0)) [
  | inl z ↦ rw z (Grows-refl h b f, refl, refl, (λ e. refl), refl)
  | inr n ↦ rw n (malloc-Grows rlen h b f, refl, refl, (λ e. ground arith), refl)
]

unsynced : (t : PacketStream) → t.synced ≡ false → IsCounted t
unsynced t e = ground arith

init_bufs-synced : (t : PacketStream) (n : ℕ) (k : Heap) → (init_bufs t n k).0.synced ≡ t.synced
unfolding init_bufs
init_bufs-synced t n k = ground arith

pub stream_init-StreamReady :
    (s : PacketStream) (rlen plen : ℕ) (h : Heap)
    → plen ≤ h.room
    → HoldsBytes h
    → IsFresh h
    → UserFits s plen h
    → IsCamera (stream_init s rlen plen h).0
      × HasRaw (stream_init s rlen plen h).0 (stream_init s rlen plen h).1
    → StreamReady (rlen, plen) (stream_init s rlen plen h).0 (stream_init s rlen plen h).1
      × Grows h (stream_init s rlen plen h).1
unfolding stream_init init_sizes
stream_init-StreamReady s rlen plen h l b f u (c, r) =
    let s₀ = record s { valid_frames = 0; synced = false } in
    let (g, p, q) = init_bufs-ready s₀ plen h l b f u in
    let s₁ = (init_bufs s₀ plen h).0 in
    let h₁ = (init_bufs s₀ plen h).1 in
    let (g', same, lib, whole, y) = init_raw-ready s₁ rlen plen h₁ g.sound.bytes g.fresh in
    let h₂ = (init_raw s₁ rlen plen h₁).1 in
    (
      record {
        camera = c;
        counted = unsynced _ (y ∙ init_bufs-synced s₀ plen h);
        frame = (stream_init-shape s rlen plen h).3;
        whole = whole;
        raw = r;
        proc = rw same (Fits-shape plen s₁.proc_buf h₁ h₂ g'.sound.shape p);
        lib = rw lib (FitsOrNull-shape plen s₁.lib_buf h₁ h₂ g'.sound.shape q);
      },
      Grows-trans h h₁ h₂ g g',
    )

pub StreamReady-running :
    (sizes : ℕ × ℕ) (s : PacketStream) (h : Heap)
    → StreamReady sizes s h
    → StreamReady sizes (record s { running = true }) h
StreamReady-running sizes s h r = record {
  camera = ground (arith, r.camera);
  counted = ground (arith, r.counted);
  frame = r.frame;
  whole = r.whole;
  raw = r.raw;
  proc = r.proc;
  lib = r.lib;
}

pub stream_init-room :
    (s : PacketStream) (rlen plen : ℕ) (h : Heap)
    → h.room ≤ (stream_init s rlen plen h).1.room + (rlen + plen)
unfolding stream_init init_bufs init_raw malloc
stream_init-room s rlen plen h = ground arith

pub stays_clear :
    (s : PacketStream) (plen : ℕ) (h h' : Heap)
    → SameShape h h'
    → UserFits s plen h
    → UserFits s plen h'
stays_clear s plen h h' k (inl e) = inl e
stays_clear s plen h h' k (inr (u, b, e, f, l)) =
    let (b', f', n) = k u b f in inr (u, b', e, f', omega (arith, n))
