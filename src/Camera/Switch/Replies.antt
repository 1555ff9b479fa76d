-- ===== src/Camera/Switch/Replies.antt =====
-- Register writes of libfreenect/src/cameras.c with a camera that replies: they change the tag, and
-- what libusb knows.
use quartz_composer_open_kin.Camera.Control.{
  int_eq, is_short, word_at, data_length, request, le16, Reply, control_cam, poll, check_reply,
  send_cmd, write_register,
}
use quartz_composer_open_kin.Camera.Switch.{Writes, write_all}
use quartz_composer_open_kin.Device.{Libusb, Sys}
use quartz_composer_open_kin.Prelude.{
  ℕ, suc, ◌++◌, ◌==◌, ◌&&◌, get_or, u16, quot, inl, inr, Bool-cases, ap, ◌>>=◌, ◌+◌, ◌≡◌, false,
  Option, some, List, [], ◌∷◌, refl, ◌∙◌, ℤ, pos, negsuc,
}

-- A reply is never empty, and control transfers do not touch what `flying` tells of the transfers.
pub record Replies {W V : Type 0} (usb : Libusb W) (flying : W → V) : Type 0 where
  pub not_empty :
      (h : Option ℕ) (buf : List ℕ) (w : W)
      → int_eq (usb.control_transfer h 0xc0 0 0 0 buf w).0 0 ≡ false
  pub flying_same :
      (h : Option ℕ) (kind : ℕ) (buf : List ℕ) (w : W)
      → flying (usb.control_transfer h kind 0 0 0 buf w).2 ≡ flying w

module _ {W V : Type 0} (usb : Libusb W) (flying : W → V) (replies : Replies usb flying) where
  -- Only the tag of the next command and the world differ.
  abbrev pub Tagged : Sys W → Sys W → Type 0
  Tagged y z =
      (t : ℕ) × (w : W) × (z ≡ record y { dev = record (y.dev) { cam_tag = t }; world = w })
      × (flying w ≡ flying y.world)

  Tagged-trans : (x y z : Sys W) → Tagged x y → Tagged y z → Tagged x z
  Tagged-trans x y z (t, w, e, f) (u, v, g, k) = (
    u,
    v,
    g ∙ ap (λ (s : Sys W). record s { dev = record (s.dev) { cam_tag = u }; world = v }) e,
    k ∙ ap (λ (s : Sys W). flying s.world) e ∙ f,
  )

  check_reply-Tagged :
      (cmd reply_len : ℕ) (res len : ℤ) (ibuf : List ℕ) (y : Sys W)
      → Tagged y (check_reply usb cmd reply_len res len ibuf y).sys
  unfolding check_reply
  check_reply-Tagged cmd reply_len res len ibuf y = elim (Bool-cases (is_short len)) [
    | inl e ↦ rw e (y.dev.cam_tag, y.world, refl, refl)
    | inr e ↦ elim (Bool-cases (get_or ibuf 0 0 == 0x52 && get_or ibuf 1 0 == 0x42)) [
      | inr f ↦ rw (e, f) (y.dev.cam_tag, y.world, refl, refl)
      | inl f ↦ elim (Bool-cases (word_at ibuf 4 == u16 cmd)) [
        | inr g ↦ rw (e, f, g) (y.dev.cam_tag, y.world, refl, refl)
        | inl g ↦ elim (Bool-cases (word_at ibuf 6 == u16 y.dev.cam_tag)) [
          | inr h ↦ rw (e, f, g, h) (y.dev.cam_tag, y.world, refl, refl)
          | inl h ↦ elim (Bool-cases (int_eq (quot (data_length len) 2) (word_at ibuf 2))) [
            | inr k ↦ rw (e, f, g, h, k) (y.dev.cam_tag, y.world, refl, refl)
            | inl k ↦ rw (e, f, g, h, k) (u16 (y.dev.cam_tag + 1), y.world, refl, refl)
          ]
        ]
      ]
    ]
  ]

  -- A command whose reply is polled once.
  Sent : Sys W → Option (Reply W) → Type 0
  Sent y o = (r : Reply W) × (o ≡ some r) × Tagged y r.sys

  sent :
      (fuel cmd reply_len : ℕ) (ibuf : List ℕ) (y : Sys W) (res : ℤ) (w : W)
      → flying w ≡ flying y.world
      → Sent y (elim res as (λ r. Option (Reply W)) [
        | negsuc n ↦ some (record { res = negsuc n; stored = []; sys = record y { world = w } })
        | pos n ↦
            (poll usb (suc fuel) ibuf (record y { world = w }) >>= λ o.
            some (check_reply usb cmd reply_len (pos n) o.0 o.1 o.2))
      ])
  unfolding Sent poll control_cam
  sent fuel cmd reply_len ibuf y (negsuc n) w e = (_, refl, (y.dev.cam_tag, w, refl, e))
  sent fuel cmd reply_len ibuf y (pos n) w e =
      let got = usb.control_transfer y.dev.usb_cam 0xc0 0 0 0 ibuf w in
      let z = record y { world = got.2 } in
      rw (replies.not_empty y.dev.usb_cam ibuf w) (
        check_reply usb cmd reply_len (pos n) got.0 got.1 z,
        refl,
        Tagged-trans y z _
            (y.dev.cam_tag, got.2, refl, replies.flying_same y.dev.usb_cam 0xc0 ibuf w ∙ e)
            (check_reply-Tagged cmd reply_len (pos n) got.0 got.1 z),
      )

  result :
      (y : Sys W) (res : ℤ) (s : Sys W)
      → Tagged y s
      → (r : ℤ) × (z : Sys W) × (some
            (elim res as (λ r. ℤ × Sys W) [ negsuc n ↦ (negsuc n, s) | pos n ↦ (pos 0, s) ])
          ≡ some (r, z))
        × Tagged y z
  result y (negsuc n) s t = (negsuc n, s, refl, t)
  result y (pos n) s t = (pos 0, s, refl, t)

  write_register-Tagged :
      (fuel : ℕ) (ibuf : List ℕ) (reg value : ℕ) (y : Sys W)
      → (r : ℤ) × (z : Sys W) × (write_register usb (suc fuel) ibuf reg value y ≡ some (r, z))
        × Tagged y z
  unfolding write_register send_cmd Sent control_cam
  write_register-Tagged fuel ibuf reg value y =
      let out =
        usb.control_transfer y.dev.usb_cam 0x40 0 0 0
          (request 0x03 y.dev.cam_tag (le16 reg ++ le16 value)) y.world in
      let (r, e, t) =
        sent fuel 0x03 4 ibuf y out.0 out.2 (replies.flying_same y.dev.usb_cam 0x40 _ y.world) in
      rw e (result y r.res r.sys t)

  -- Any number of writes, one after the other.
  pub write_all-Tagged :
      (fuel : ℕ) (ibuf : List ℕ) (ws : Writes) (y : Sys W)
      → (z : Sys W) × (write_all usb (suc fuel) ibuf ws y ≡ some z) × Tagged y z
  unfolding write_all
  write_all-Tagged fuel ibuf [] y = (y, refl, (y.dev.cam_tag, y.world, refl, refl))
  write_all-Tagged fuel ibuf ((reg, value) ∷ ws) y =
      let (r, y₁, e, t) = write_register-Tagged fuel ibuf reg value y in
      let (z, f, u) = write_all-Tagged fuel ibuf ws y₁ in
      (z, rw (e, f) refl, Tagged-trans y y₁ z t u)
