-- ===== src/Usb/Iso/Quiet.antt =====
-- What packets do not touch: the transfers of both streams and libusb (`depth_process` and
-- `video_process` of libfreenect/src/cameras.c).
use quartz_composer_open_kin.Camera.Process.{
  convert_depth, convert_video, depth_process, video_process,
}
use quartz_composer_open_kin.Device.{Sys, Endpoint, depth_ep, video_ep}
use quartz_composer_open_kin.Memory.Kept.{some-is}
use quartz_composer_open_kin.Prelude.{
  ℕ, ◌≡◌, some, List, [], ◌∷◌, refl, inl, inr, ◌∙◌, Bool-cases, ◌==◌, ◌||◌, not, length,
  >>=-eq_some,
}
use quartz_composer_open_kin.Stream.Process.{stream_process}
use quartz_composer_open_kin.Usb.Iso.{isoc_of, process_packet, process_packets}

pub record IsQuiet {W : Type 0} (y z : Sys W) : Type 0 where
  pub world : z.world ≡ y.world
  pub depth_isoc : z.dev.depth_isoc ≡ y.dev.depth_isoc
  pub video_isoc : z.dev.video_isoc ≡ y.dev.video_isoc

module _ {W : Type 0} where
  IsQuiet-refl : (y : Sys W) → IsQuiet y y
  IsQuiet-refl y = record { world = refl; depth_isoc = refl; video_isoc = refl }

  IsQuiet-eq : (x y z : Sys W) → some y ≡ some z → IsQuiet x y → IsQuiet x z
  IsQuiet-eq x y z e q = rw (← some-is e) q

  depth_process-IsQuiet : (pkt : List ℕ) (y z : Sys W) → depth_process pkt y ≡ some z → IsQuiet y z
  unfolding depth_process
  depth_process-IsQuiet pkt y z e = elim (Bool-cases (length pkt == 0 || not y.dev.depth.running)) [
    | inl off ↦ IsQuiet-eq y y z (rw off at e) (IsQuiet-refl y)
    | inr on ↦
        (let ((got, s, h), _, f) =
            >>=-eq_some (stream_process y.dev.depth pkt y.heap) _ (rw on at e) in
          elim (Bool-cases (got == 0)) [
            | inl z₀ ↦
                IsQuiet-eq y _ z (rw z₀ at f)
                  (record { world = refl; depth_isoc = refl; video_isoc = refl })
            | inr n ↦
                (let (h', _, k) =
                    >>=-eq_some (convert_depth y.dev.depth_format s h) _ (rw n at f) in
                  IsQuiet-eq y _ z k
                    (record { world = refl; depth_isoc = refl; video_isoc = refl }))
          ])
  ]

  video_process-IsQuiet : (pkt : List ℕ) (y z : Sys W) → video_process pkt y ≡ some z → IsQuiet y z
  unfolding video_process
  video_process-IsQuiet pkt y z e = elim (Bool-cases (length pkt == 0 || not y.dev.video.running)) [
    | inl off ↦ IsQuiet-eq y y z (rw off at e) (IsQuiet-refl y)
    | inr on ↦
        (let ((got, s, h), _, f) =
            >>=-eq_some (stream_process y.dev.video pkt y.heap) _ (rw on at e) in
          elim (Bool-cases (got == 0)) [
            | inl z₀ ↦
                IsQuiet-eq y _ z (rw z₀ at f)
                  (record { world = refl; depth_isoc = refl; video_isoc = refl })
            | inr n ↦
                (let (h', _, k) =
                    >>=-eq_some (convert_video y.dev.video_format s h) _ (rw n at f) in
                  IsQuiet-eq y _ z k
                    (record { world = refl; depth_isoc = refl; video_isoc = refl }))
          ])
  ]

  process_packet-IsQuiet :
      (ep : Endpoint) (pkt : List ℕ) (y z : Sys W) → process_packet ep pkt y ≡ some z → IsQuiet y z
  process_packet-IsQuiet depth_ep pkt y z e = depth_process-IsQuiet pkt y z e
  process_packet-IsQuiet video_ep pkt y z e = video_process-IsQuiet pkt y z e

  pub process_packets-IsQuiet :
      (ep : Endpoint) (pkts : List (List ℕ)) (y z : Sys W)
      → process_packets ep pkts y ≡ some z
      → IsQuiet y z
  unfolding process_packets
  process_packets-IsQuiet ep [] y z e = IsQuiet-eq y y z e (IsQuiet-refl y)
  process_packets-IsQuiet ep (pkt ∷ pkts) y z e =
      let (y₁, f, g) = >>=-eq_some (process_packet ep pkt y) _ e in
      let k = process_packet-IsQuiet ep pkt y y₁ f in
      let l = process_packets-IsQuiet ep pkts y₁ z g in
      record {
        world = l.world ∙ k.world;
        depth_isoc = l.depth_isoc ∙ k.depth_isoc;
        video_isoc = l.video_isoc ∙ k.video_isoc;
      }

  pub IsQuiet-isoc :
      (ep : Endpoint) (y z : Sys W) → IsQuiet y z → isoc_of ep z.dev ≡ isoc_of ep y.dev
  IsQuiet-isoc depth_ep y z q = q.depth_isoc
  IsQuiet-isoc video_ep y z q = q.video_isoc
