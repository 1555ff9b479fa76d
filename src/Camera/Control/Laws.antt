-- ===== src/Camera/Control/Laws.antt =====
-- Polling for replies, and what `write_register` makes of replies that are too short.
use quartz_composer_open_kin.Camera.Control.{
  int_eq, le16, word_at, request, cam_hdr_size, control_cam, poll, check_reply, Reply, send_cmd,
  write_register,
}
use quartz_composer_open_kin.Device.{Libusb, Sys}
use quartz_composer_open_kin.Prelude.{
  ℕ, zero, suc, ◌+◌, ◌/◌, ◌^◌, ◌≡◌, ◌<◌, true, false, some, List, [], ◌++◌, ◌==◌, ℤ, pos, negsuc,
  arith, refl, ap, inl, inr, Bool-cases, length, ltb,
}

-- Commands on the wire. The header of a request, read as little-endian words behind its two magic
-- bytes, holds the command's length in words, the command and the tag.
pub request-header :
    (cmd tag : ℕ) (cmdbuf : List ℕ)
    → cmd < 2 ^ 16
    → tag < 2 ^ 16
    → length cmdbuf < 2 ^ 10
    → (word_at (request cmd tag cmdbuf) 2 ≡ length cmdbuf / 2)
      × (word_at (request cmd tag cmdbuf) 4 ≡ cmd)
      × (word_at (request cmd tag cmdbuf) 6 ≡ tag)
      × (length (request cmd tag cmdbuf) ≡ cam_hdr_size + length cmdbuf)
request-header cmd tag cmdbuf c t l = (omega arith, omega arith, omega arith, omega arith)

suc_add : (a b : ℕ) → suc a + b ≡ suc (a + b)
suc_add a b = omega arith

nonzero : (k : ℕ) → (suc k == 0) ≡ false
nonzero k = ground arith

short : (k : ℕ) → suc k < cam_hdr_size → ltb (suc k) 8 ≡ true
short k l = ground arith

module _ {W : Type 0} (usb : Libusb W) where
  -- More fuel does not change what polling ends with.
  pub poll-more :
      (fuel more : ℕ) (ibuf : List ℕ) (y : Sys W) {out : ℤ × List ℕ × Sys W}
      → poll usb fuel ibuf y ≡ some out
      → poll usb (fuel + more) ibuf y ≡ some out
  unfolding poll
  poll-more zero more ibuf y e = ground arith
  poll-more (suc fuel) more ibuf y e =
      elim (Bool-cases (int_eq (control_cam usb 0xc0 ibuf y).0 0)) [
        | inl z ↦ rw (suc_add fuel more) (rw z (poll-more fuel more _ _ (rw z at e)))
        | inr n ↦ rw (suc_add fuel more) (rw n (rw n at e))
      ]

  check_reply-short :
      (cmd reply_len : ℕ) (res : ℤ) (k : ℕ) (ibuf : List ℕ) (y : Sys W)
      → suc k < cam_hdr_size
      → check_reply usb cmd reply_len res (pos (suc k)) ibuf y
        ≡ record { res = res; stored = []; sys = y }
  unfolding check_reply
  check_reply-short cmd reply_len res k ibuf y l = rw (short k l) refl

  -- A reply shorter than its header counts as success. Where the camera takes the command of a
  -- register write and its reply is between 1 and 7 bytes, `write_register` returns 0.
  pub write_register-short :
      (fuel : ℕ) (ibuf : List ℕ) (reg value n k : ℕ) (y : Sys W)
      → let sent = control_cam usb 0x40 (request 0x03 y.dev.cam_tag (le16 reg ++ le16 value)) y in
        let y₁ = record y { world = sent.2 } in
        let reply = control_cam usb 0xc0 ibuf y₁ in
        sent.0 ≡ pos n
        → reply.0 ≡ pos (suc k)
        → suc k < cam_hdr_size
        → write_register usb (suc fuel) ibuf reg value y
          ≡ some (pos 0, record y₁ { world = reply.2 })
  unfolding write_register send_cmd poll
  write_register-short fuel ibuf reg value n k y s r l =
      rw (s, r, nonzero k)
        (ap
          (λ (q : Reply W).
            some (elim (q.res) [ negsuc m ↦ (negsuc m, q.sys) | pos m ↦ (pos 0, q.sys) ]))
          (check_reply-short 0x03 4 (pos n) k
            (control_cam usb 0xc0 ibuf (record y {
              world =
                  (control_cam usb 0x40 (request 0x03 y.dev.cam_tag (le16 reg ++ le16 value)) y).2;
            })).1
            _ l))
