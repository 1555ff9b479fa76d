-- ===== src/Viewer.antt =====
-- libfreenect/examples/glview.c, the viewer: its callbacks on the driver's thread, and drawing and keys
-- on the other. What runs under `gl_backbuf_mutex` is one step here. The device is that of the driver's
-- model; the gamma table, which `powf` fills, is a parameter; OpenGL and GLUT are not modelled.
pub mod Frames
pub mod Buffers
pub mod Shown
pub mod Callbacks
pub mod Swapped
pub mod Safe
pub mod Close
pub mod Thread
use quartz_composer_open_kin.Camera.Process.{depth_process, video_process}
use quartz_composer_open_kin.Camera.Settings.{set_video_buffer}
use quartz_composer_open_kin.Device.{
  VideoFormat, video_rgb, video_bayer, video_ir_8bit, video_ir_10bit, video_ir_10bit_packed,
  video_yuv_rgb, video_yuv_raw, frame_pix, Device, Delivery, Sys,
}
use quartz_composer_open_kin.Memory.{Heap, Pointer, memcpy, contents, free}
use quartz_composer_open_kin.Prelude.{
  ℕ, zero, suc, ◌+◌, ◌-◌, ◌*◌, ◌/◌, ◌%◌, Bool, true, false, Option, none, some, List, [], ◌∷◌, ◌++◌,
  ◌==◌, ◌&&◌, ◌||◌, not, if◌then◌else◌, get_elem?, take, ◌>>=◌, ℤ, pos, negsuc, ltb,
}
use quartz_composer_open_kin.Tilt.{
  Led, led_off, led_green, led_red, led_yellow, led_blink_green, led_blink_red_yellow,
}

-- The buffers are blocks of the heap.
pub record Viewer : Type 0 where
  pub die : Bool
  pub depth_mid : ℕ
  pub depth_front : ℕ
  pub rgb_back : ℕ
  pub rgb_mid : ℕ
  pub rgb_front : ℕ
  pub freenect_angle : ℤ
  pub requested_format : VideoFormat
  pub current_format : VideoFormat
  pub got_rgb : ℕ
  pub got_depth : ℕ

-- The switch over `pval >> 8`.
unfoldable pub depth_colour : ℕ → List ℕ
depth_colour pval =
    let lb = pval % 256 in
    let band = pval / 256 in
    if band == 0
    then 255 ∷ (255 - lb) ∷ (255 - lb) ∷ []
    else if band == 1
    then 255 ∷ lb ∷ 0 ∷ []
    else if band == 2
    then (255 - lb) ∷ 255 ∷ 0 ∷ []
    else if band == 3
    then 0 ∷ 255 ∷ lb ∷ []
    else if band == 4
    then 0 ∷ (255 - lb) ∷ 255 ∷ []
    else if band == 5
    then 0 ∷ 0 ∷ (255 - lb) ∷ []
    else 0 ∷ 0 ∷ 0 ∷ []

-- The bytes that the loop of `depth_cb` stores; `none` is a read past the gamma table.
unfoldable pub depth_colours : List ℕ → List ℕ → Option (List ℕ)
depth_colours t_gamma [] = some []
depth_colours t_gamma (d ∷ ds) = do
  pval ← get_elem? t_gamma d
  rest ← depth_colours t_gamma ds
  some (depth_colour pval ++ rest)

-- `n` words of memory read through a `uint16_t` pointer; past the block it is a fault.
unfoldable pub read_words : ℕ → List ℕ → Option (List ℕ)
read_words zero bs = some []
read_words (suc n) (lo ∷ hi ∷ bs) = do rest ← read_words n bs; some ((lo + 256 * hi) ∷ rest)
read_words (suc n) (lo ∷ []) = none
read_words (suc n) [] = none

-- `DrawGLScene` waits, or returns without drawing, or draws what it swapped to the front.
pub data Drawn : Type 0 where
  waits skips : Drawn
  draws : Viewer → Drawn

abbrev pub same_format : VideoFormat → VideoFormat → Bool
same_format video_rgb video_rgb = true
same_format video_bayer video_bayer = true
same_format video_ir_8bit video_ir_8bit = true
same_format video_ir_10bit video_ir_10bit = true
same_format video_ir_10bit_packed video_ir_10bit_packed = true
same_format video_yuv_rgb video_yuv_rgb = true
same_format video_yuv_raw video_yuv_raw = true
same_format _ _ = false

abbrev pub swap_depth : Viewer → Viewer
swap_depth v =
    if v.got_depth == 0
    then v
    else record v { depth_front = v.depth_mid; depth_mid = v.depth_front; got_depth = 0 }

abbrev pub swap_rgb : Viewer → Viewer
swap_rgb v =
    if v.got_rgb == 0
    then v
    else record v { rgb_front = v.rgb_mid; rgb_mid = v.rgb_front; got_rgb = 0 }

-- Whether a change of the format is pending, and the condition of the loop that waits.
abbrev pub is_pending : Viewer → Bool
is_pending v = not (same_format v.requested_format v.current_format)

abbrev pub must_wait : Viewer → Bool
must_wait v =
    if same_format v.current_format video_yuv_rgb
    then v.got_depth == 0 && v.got_rgb == 0
    else (v.got_depth == 0 || v.got_rgb == 0) && is_pending v

unfoldable pub draw_scene : Viewer → Drawn
draw_scene v =
    if must_wait v then waits else if is_pending v then skips else draws (swap_rgb (swap_depth v))

-- The angle after 'w' and after 'x'.
abbrev pub tilt_up : ℤ → ℤ
tilt_up (pos n) = if ltb 30 (n + 1) then pos 30 else pos (n + 1)
tilt_up (negsuc zero) = pos 0
tilt_up (negsuc (suc n)) = negsuc n

abbrev pub tilt_down : ℤ → ℤ
tilt_down (pos zero) = negsuc 0
tilt_down (pos (suc n)) = pos n
tilt_down (negsuc n) = if ltb 29 (n + 1) then negsuc 29 else negsuc (n + 1)

abbrev pub next_format : VideoFormat → VideoFormat
next_format video_ir_8bit = video_rgb
next_format video_rgb = video_yuv_rgb
next_format _ = video_ir_8bit

-- The LED that a key sets.
abbrev pub led_of : ℕ → Option Led
led_of key =
    if key == b'1'
    then some led_green
    else if key == b'2'
    then some led_red
    else if key == b'3'
    then some led_yellow
    else if key == b'4' || key == b'5'
    then some led_blink_green
    else if key == b'6'
    then some led_blink_red_yellow
    else if key == b'0'
    then some led_off
    else none

-- `keyPressed` for a key other than Escape: the viewer, and the LED and the angle that the motor is
-- sent.
unfoldable pub key_pressed : ℕ → Viewer → Viewer × Option Led × ℤ
key_pressed key v =
    let angle =
      if key == b'w'
      then tilt_up v.freenect_angle
      else if key == b's'
      then pos 0
      else if key == b'x'
      then tilt_down v.freenect_angle
      else v.freenect_angle in
    let format = if key == b'f' then next_format v.requested_format else v.requested_format in
    (record v { freenect_angle = angle; requested_format = format }, led_of key, angle)

-- The Escape key.
abbrev pub escape : ℕ
escape = 27

-- What `keyPressed` frees for Escape.
unfoldable pub close_window : Viewer → Heap → Option Heap
unfolding free
close_window v h = do
  h₁ ← free (some v.depth_mid) h
  h₂ ← free (some v.depth_front) h₁
  h₃ ← free (some v.rgb_back) h₂
  h₄ ← free (some v.rgb_mid) h₃
  free (some v.rgb_front) h₄

-- What the callbacks and the other thread share.
pub record App (W : Type 0) : Type 0 where
  pub viewer : Viewer
  pub sys : Sys W

pub data Action : Type 0 where
  depth_packet video_packet : List ℕ → Action
  draw : Action
  key : ℕ → Action

module _ {W : Type 0} where
  -- The driver calls back for what it delivers.
  abbrev pub call_back : (Pointer → App W → Option (App W)) → List Delivery → App W → Option (App W)
  call_back f [] a = some a
  call_back f (d ∷ ds) a = f d.buf a >>= call_back f ds

  abbrev pub undelivered : App W → Sys W
  undelivered a = record (a.sys) { delivered = [] }

module _ {W : Type 0} (t_gamma : List ℕ) where
  unfoldable pub depth_cb : Pointer → App W → Option (App W)
  depth_cb buf a = do
    raw ← contents buf a.sys.heap
    depth ← read_words frame_pix raw
    bytes ← depth_colours t_gamma depth
    h ← memcpy (some a.viewer.depth_mid) 0 bytes a.sys.heap
    some (record {
      viewer = record (a.viewer) { got_depth = a.viewer.got_depth + 1 };
      sys = record (a.sys) { heap = h };
    })

  -- `none` is also a failed assertion.
  unfoldable pub rgb_cb : Pointer → App W → Option (App W)
  rgb_cb none a = none
  rgb_cb (some rgb) a =
      if a.viewer.rgb_back == rgb
      then (let dev = set_video_buffer (some a.viewer.rgb_mid) a.sys.dev in
          some (record {
            viewer = record (a.viewer) {
              rgb_back = a.viewer.rgb_mid;
              rgb_mid = rgb;
              got_rgb = a.viewer.got_rgb + 1;
            };
            sys = record (a.sys) { dev = dev.1 };
          }))
      else none

  -- For Escape the driver's thread is joined before the frees; what it does then is in Viewer/Thread.
  -- The program ends behind them.
  unfoldable pub act : Action → App W → Option (App W)
  act (depth_packet pkt) a = do
    y ← depth_process pkt (undelivered a)
    call_back depth_cb y.delivered (record a { sys = y })
  act (video_packet pkt) a = do
    y ← video_process pkt (undelivered a)
    call_back rgb_cb y.delivered (record a { sys = y })
  act draw a = elim (draw_scene a.viewer) [
    | waits ↦ some a
    | skips ↦ some a
    | draws v ↦ some (record a { viewer = v })
  ]
  act (key k) a =
      if k == escape
      then (close_window a.viewer a.sys.heap >>= λ h. some (record a {
        viewer = record (a.viewer) { die = true };
        sys = record (a.sys) { heap = h };
      }))
      else some (record a { viewer = (key_pressed k a.viewer).0 })

  unfoldable pub act_all : List Action → App W → Option (App W)
  act_all [] a = some a
  act_all (x ∷ xs) a = act x a >>= act_all xs
