-- ===== src/Viewer/Shown.antt =====
-- The invariant of the viewer of libfreenect/examples/glview.c, and its callbacks `depth_cb` and
-- `rgb_cb` by themselves.
use quartz_composer_open_kin.Viewer.Buffers.{
  HasBuffers, HasBuffers-shape, HasBuffers-same, HasBuffers-exchange,
}
use quartz_composer_open_kin.Camera.Process.Safety.{StreamReady-shape}
use quartz_composer_open_kin.Camera.Session.Good.{IsGood}
use quartz_composer_open_kin.Camera.Session.Setters.{set_video_buffer-IsGood}
use quartz_composer_open_kin.Camera.Settings.{set_video_buffer}
use quartz_composer_open_kin.Device.{depth_11bit, video_rgb_size, Device, Sys}
use quartz_composer_open_kin.Memory.{Heap, Pointer}
use quartz_composer_open_kin.Memory.Bytes.{SameShape, Sound, memcpy-Sound}
use quartz_composer_open_kin.Prelude.{
  ℕ, ◌+◌, ◌≡◌, true, Option, some, List, arith, length, refl, inr, ◌==◌, ==_iff, ◌∙◌, ap, sym,
}
use quartz_composer_open_kin.Stream.{PacketStream}
use quartz_composer_open_kin.Stream.Buffers.{stream_setbuf}
use quartz_composer_open_kin.Viewer.{Viewer, App, depth_cb, rgb_cb}
use quartz_composer_open_kin.Viewer.Frames.{depth_colours-returns, HoldsDepth}

set_video_buffer-sets :
    (p : ℕ) (d : Device)
    → d.video.running ≡ true
    → ((set_video_buffer (some p) d).1.video.running ≡ true)
      × ((set_video_buffer (some p) d).1.video.proc_buf ≡ some p)
      × ((set_video_buffer (some p) d).1.depth_format ≡ d.depth_format)
unfolding set_video_buffer stream_setbuf
set_video_buffer-sets p d on = rw on (refl, refl, refl)

module _ {W : Type 0} where
  -- The video stream runs into `rgb_back`, and depth frames have 11 bits.
  pub record IsShown (a : App W) : Type 0 where
    pub good : IsGood a.sys
    pub on : a.sys.dev.video.running ≡ true
    pub format : a.sys.dev.depth_format ≡ depth_11bit
    pub back : a.sys.dev.video.proc_buf ≡ some a.viewer.rgb_back
    pub buffers : HasBuffers a.viewer a.sys.heap

  pub IsShown-sys :
      (a : App W) (y : Sys W)
      → IsShown a
      → IsGood y
      → SameShape a.sys.heap y.heap
      → y.dev.video.running ≡ a.sys.dev.video.running
      → y.dev.video.proc_buf ≡ a.sys.dev.video.proc_buf
      → y.dev.depth_format ≡ a.sys.dev.depth_format
      → IsShown (record a { sys = y })
  IsShown-sys a y i g s r p f = record {
    good = g;
    on = r ∙ i.on;
    format = f ∙ i.format;
    back = p ∙ i.back;
    buffers = HasBuffers-shape a.viewer a.sys.heap y.heap s i.buffers;
  }

  pub IsShown-viewer :
      (a : App W) (v : Viewer)
      → IsShown a
      → HasBuffers v a.sys.heap
      → v.rgb_back ≡ a.viewer.rgb_back
      → IsShown (record a { viewer = v })
  IsShown-viewer a v i b e = record {
    good = i.good;
    on = i.on;
    format = i.format;
    back = i.back ∙ ap some (sym e);
    buffers = b;
  }

  IsGood-heap : (y : Sys W) (h : Heap) → IsGood y → Sound y.heap h → IsGood (record y { heap = h })
  IsGood-heap y h g s = record {
    bytes = s.bytes;
    depth = λ on. StreamReady-shape _ y.dev.depth y.heap h s.shape (g.depth on);
    video = λ on. StreamReady-shape _ y.dev.video y.heap h s.shape (g.video on);
    format = g.format;
  }

  -- A callback that goes well.
  abbrev pub Runs : Option (App W) → Type 0
  Runs r = (b : App W) × (r ≡ some b) × IsShown b

  pub depth_cb-Runs :
      (t_gamma : List ℕ) (s : PacketStream) (a : App W)
      → length t_gamma ≡ 2048
      → HoldsDepth s a.sys.heap
      → IsShown a
      → Runs (depth_cb t_gamma s.proc_buf a)
  unfolding depth_cb
  depth_cb-Runs t_gamma s a t (raw, ds, e, f, l, n) i =
      let (bytes, c, b, k) = depth_colours-returns t_gamma ds (rw t l) in
      let (h, m, w) =
        memcpy-Sound (some a.viewer.depth_mid) 0 video_rgb_size bytes a.sys.heap i.buffers.depth_mid
          (omega (arith, k, n)) b i.good.bytes in
      let r =
        IsShown-sys a (record (a.sys) { heap = h }) i (IsGood-heap a.sys h i.good w) w.shape refl
          refl refl in
      (
        record {
          viewer = record (a.viewer) { got_depth = a.viewer.got_depth + 1 };
          sys = record (a.sys) { heap = h };
        },
        rw (e, f, c, m) refl,
        IsShown-viewer (record a { sys = record (a.sys) { heap = h } }) _ r
            (HasBuffers-same a.viewer _ h r.buffers refl refl refl refl refl) refl,
      )

  exchanged : App W → App W
  exchanged a = record {
    viewer = record (a.viewer) {
      rgb_back = a.viewer.rgb_mid;
      rgb_mid = a.viewer.rgb_back;
      got_rgb = a.viewer.got_rgb + 1;
    };
    sys = record (a.sys) { dev = (set_video_buffer (some a.viewer.rgb_mid) a.sys.dev).1 };
  }

  pub rgb_cb-Runs :
      (t_gamma : List ℕ) (buf : Pointer) (a : App W)
      → buf ≡ some a.viewer.rgb_back
      → IsShown a
      → Runs (rgb_cb t_gamma buf a)
  unfolding rgb_cb exchanged
  rgb_cb-Runs t_gamma buf a e i =
      let same : (a.viewer.rgb_back == a.viewer.rgb_back) ≡ true = (==_iff _ _).1 refl in
      let (on, back, fmt) = set_video_buffer-sets a.viewer.rgb_mid a.sys.dev i.on in
      (
        exchanged a,
        rw (e, same) refl,
        record {
          good =
              set_video_buffer-IsGood (some a.viewer.rgb_mid) a.sys (inr i.buffers.rgb_mid) i.good;
          on = on;
          format = fmt ∙ i.format;
          back = back;
          buffers = HasBuffers-exchange a.viewer a.sys.heap _ i.buffers;
        },
      )
