-- ===== src/Plugin/Life/Ended.antt =====
-- A recording that has come to its end, in the loop of the driver's thread.
use quartz_composer_open_kin.Device.{Libusb}
use quartz_composer_open_kin.Fakenect.{Globals, Host}
use quartz_composer_open_kin.Fakenect.Api.{
  either_process_events, fake_set_tilt_degs, fake_set_led, fake_set_depth_callback,
  fake_set_video_callback, fake_set_video_buffer, fake_set_video_format, fake_set_depth_format,
  fake_start_depth, fake_start_video,
}
use quartz_composer_open_kin.Fakenect.Events.{fake_process_events}
use quartz_composer_open_kin.Fakenect.Index.{parse_line, open_index, one_line, read_line}
use quartz_composer_open_kin.Memory.{Heap}
use quartz_composer_open_kin.Plugin.Life.{
  fake_dev, starting, shutting, Life, call_on, context, set_up_streams, run_loop, run_events,
  step_at, thread_step,
}
use quartz_composer_open_kin.Prelude.{
  ℕ, ◌≡◌, true, false, none, some, List, [], refl, ap, ◌∙◌, ◌>>=◌, >>=-some, if-true, is_some,
  negsuc,
}

parse_line-ended :
    (host : Host) (g : Globals) (h : Heap)
    → g.index_fp ≡ some []
    → parse_line host g h ≡ some (none, record g { index_fp = some [] }, h)
unfolding parse_line one_line read_line
parse_line-ended host g h e = >>=-some _ e

-- Reading on behind the end of the index.
fake_process_events-ended :
    (host : Host) (g : Globals) (h : Heap)
    → g.index_fp ≡ some []
    → fake_process_events host g h ≡ some (negsuc 0, record g { index_fp = some [] }, h)
unfolding fake_process_events
fake_process_events-ended host g h e =
    let open_already : is_some g.index_fp ≡ true = ap is_some e in
    >>=-some _ (
      ap (λ k. parse_line host k h) (if-true g (open_index host g) open_already)
      ∙ parse_line-ended host g h e)

module _ {W : Type 0} (usb : Libusb W) (fuel : ℕ) (ibuf : List ℕ) where
  -- At the end. Let a thread start on the fake device while the index is open and read to its end, with
  -- `_die` false, whatever path the environment names by now. Its second step leaves the loop: nothing is
  -- played, and the index stays as it is, so the same holds of the next thread.
  pub ended-shuts :
      (rgb_back : ℕ) (buf : List ℕ) (s : Life W)
      → s.freenect_thread ≡ starting
      → s.f_dev ≡ fake_dev
      → s.use_fakenect ≡ true
      → s.die ≡ false
      → s.globals.index_fp ≡ some []
      → (t : Life W) × ((thread_step usb fuel ibuf rgb_back buf s
            >>= thread_step usb fuel ibuf rgb_back buf)
          ≡ some t)
        × (t.freenect_thread ≡ shutting)
        × (t.globals.played ≡ s.globals.played)
        × (t.globals.index_fp ≡ some [])
  unfolding step_at call_on set_up_streams run_loop run_events context either_process_events
      fake_set_tilt_degs fake_set_led fake_set_depth_callback fake_set_video_callback
      fake_set_video_buffer fake_set_video_format fake_set_depth_format fake_start_depth
      fake_start_video
  ended-shuts rgb_back buf s g f u d i =
      rw (g, f, u, d)
        (
          _,
          >>=-some _ (>>=-some _ (>>=-some _ (fake_process_events-ended s.host _ s.core.heap i))),
          refl,
          refl,
          refl,
        )
