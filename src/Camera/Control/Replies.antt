-- ===== src/Camera/Control/Replies.antt =====
-- What `send_cmd` accepts as the reply to a command.
use quartz_composer_open_kin.Camera.Control.{
  word_at, request, Reply, is_short, copied, int_eq, data_length, cam_hdr_size, obuf_size,
  control_cam, poll, check_reply, send_cmd,
}
use quartz_composer_open_kin.Camera.Session.Setters.{true-false}
use quartz_composer_open_kin.Memory.Kept.{some-is, none-is}
use quartz_composer_open_kin.Device.{Libusb, Sys}
use quartz_composer_open_kin.Prelude.{
  ℕ, zero, suc, ◌+◌, ◌-◌, ◌%◌, ◌≡◌, ◌⊎◌, Bool, true, false, Option, is_neg, sym, some, List, [],
  ◌==◌, get_or, take, drop, u16, ℤ, pos, negsuc, quot, arith, refl, inl, inr, ◌∙◌, Bool-cases,
  length, ◌>>=◌, >>=-eq_some, ◌&&◌, ◌||◌, ltb, ==_iff,
}

-- The reply in `ibuf` answers the command `cmd` sent under the tag `tag`, with `len` bytes received.
pub record IsAnswer (cmd tag : ℕ) (len : ℤ) (ibuf : List ℕ) : Type 0 where
  pub magic : (get_or ibuf 0 0 ≡ 0x52) × (get_or ibuf 1 0 ≡ 0x42)
  pub command : word_at ibuf 4 ≡ u16 cmd
  pub tagged : word_at ibuf 6 ≡ u16 tag
  pub sized : quot (data_length len) 2 ≡ pos (word_at ibuf 2)

int_eq-pos : (a : ℤ) (n : ℕ) → int_eq a n ≡ true → a ≡ pos n
int_eq-pos (pos m) n e = ground arith
int_eq-pos (negsuc m) n e = ground arith

-- What the camera sends when it is polled: the outcome of the first transfer whose length is not 0, each
-- into what the one before it left of the buffer.
pub data FirstReply {W : Type 0} (usb : Libusb W) (camera : Option ℕ)
    : List ℕ → W → ℤ × List ℕ × W → Type 0 where
  now :
      (buf : List ℕ) (w : W)
      → int_eq (usb.control_transfer camera 0xc0 0 0 0 buf w).0 0 ≡ false
      → FirstReply usb camera buf w (usb.control_transfer camera 0xc0 0 0 0 buf w)
  later :
      (buf : List ℕ) (w : W) (out : ℤ × List ℕ × W)
      → int_eq (usb.control_transfer camera 0xc0 0 0 0 buf w).0 0 ≡ true
      → FirstReply usb camera
          (usb.control_transfer camera 0xc0 0 0 0 buf w).1
          (usb.control_transfer camera 0xc0 0 0 0 buf w).2
          out
      → FirstReply usb camera buf w out

-- A command that `send_cmd` takes.
abbrev pub is_bad : List ℕ → Bool
is_bad cmdbuf = length cmdbuf % 2 == 1 || ltb (obuf_size - cam_hdr_size) (length cmdbuf)

pos-int_eq : (a : ℤ) (n : ℕ) → a ≡ pos n → int_eq a n ≡ true
pos-int_eq (pos m) n e = ground arith
pos-int_eq (negsuc m) n e = ground arith

module _ {W : Type 0} where
  -- Nothing was stored through `replybuf`, and the tag is the next command's too.
  abbrev pub IsSilent : Sys W → Reply W → Type 0
  IsSilent y r =
      (r.stored ≡ [])
      × (r.sys.dev ≡ y.dev)
      × (r.sys.heap ≡ y.heap)
      × (r.sys.delivered ≡ y.delivered)

  -- The reply `ibuf` of `len` bytes is the answer, and what is stored is its data.
  abbrev pub IsAnswered : ℕ → ℕ → ℤ → List ℕ → Sys W → Reply W → Type 0
  IsAnswered cmd reply_len len ibuf y r =
      (is_short len ≡ false)
      × IsAnswer cmd y.dev.cam_tag len ibuf
      × (r.res ≡ data_length len)
      × (r.stored ≡ take (copied (data_length len) reply_len) (drop cam_hdr_size ibuf))
      × (r.sys.dev.cam_tag ≡ u16 (y.dev.cam_tag + 1))

  -- It is not.
  abbrev pub IsRejected : ℕ → ℤ → List ℕ → Sys W → Reply W → Type 0
  IsRejected cmd len ibuf y r =
      ((is_short len ≡ true) ⊎ (¬ IsAnswer cmd y.dev.cam_tag len ibuf)) × IsSilent y r

  abbrev pub IsChecked : ℕ → ℕ → ℤ → List ℕ → Sys W → Reply W → Type 0
  IsChecked cmd reply_len len ibuf y r =
      IsRejected cmd len ibuf y r ⊎ IsAnswered cmd reply_len len ibuf y r

  -- Only the device, the heap and the deliveries of the state count.
  carry :
      (cmd reply_len : ℕ) (len : ℤ) (ibuf : List ℕ) (z y : Sys W) (r : Reply W)
      → z.dev ≡ y.dev
      → z.heap ≡ y.heap
      → z.delivered ≡ y.delivered
      → IsChecked cmd reply_len len ibuf z r
      → IsChecked cmd reply_len len ibuf y r
  carry cmd reply_len len ibuf z y r d h l (inl (n, (a, b, c, e))) =
      inl (rw d at n, (a, b ∙ d, c ∙ h, e ∙ l))
  carry cmd reply_len len ibuf z y r d h l (inr (t, a, e, f, g)) =
      inr (t, rw d at a, e, f, rw d at g)

module _ {W : Type 0} (usb : Libusb W) where
  -- The command was not sent, or its transfer failed.
  abbrev pub IsUnsent : ℕ → List ℕ → Sys W → Reply W → Type 0
  IsUnsent cmd cmdbuf y r =
      ((is_bad cmdbuf ≡ true)
        ⊎ (is_neg (control_cam usb 0x40 (request cmd y.dev.cam_tag cmdbuf) y).0 ≡ true))
      × (is_neg r.res ≡ true)
      × IsSilent y r

  -- The camera replied, and its reply was checked.
  abbrev pub IsReplied : ℕ → ℕ → List ℕ → W → Sys W → Reply W → Type 0
  IsReplied cmd reply_len ibuf w y r =
      (out : ℤ × List ℕ × W) × FirstReply usb y.dev.usb_cam ibuf w out
      × IsChecked cmd reply_len out.0 out.1 y r

  check_reply-Checked :
      (cmd reply_len : ℕ) (res len : ℤ) (ibuf : List ℕ) (y : Sys W)
      → IsChecked cmd reply_len len ibuf y (check_reply usb cmd reply_len res len ibuf y)
  unfolding check_reply
  check_reply-Checked cmd reply_len res len ibuf y = elim (Bool-cases (is_short len)) [
    | inl e ↦ rw e (inl (inl refl, (refl, refl, refl, refl)))
    | inr e ↦ elim (Bool-cases (get_or ibuf 0 0 == 0x52 && get_or ibuf 1 0 == 0x42)) [
      | inr f ↦
          rw (e, f)
            (inl (inr (λ a. ground (arith, a.magic.0, a.magic.1, f)), (refl, refl, refl, refl)))
      | inl f ↦ elim (Bool-cases (word_at ibuf 4 == u16 cmd)) [
        | inr g ↦
            rw (e, f, g)
              (inl (
                inr (λ a. true-false (sym ((==_iff _ _).1 a.command) ∙ g)),
                (refl, refl, refl, refl),
              ))
        | inl g ↦ elim (Bool-cases (word_at ibuf 6 == u16 y.dev.cam_tag)) [
          | inr h ↦
              rw (e, f, g, h)
                (inl (
                  inr (λ a. true-false (sym ((==_iff _ _).1 a.tagged) ∙ h)),
                  (refl, refl, refl, refl),
                ))
          | inl h ↦ elim (Bool-cases (int_eq (quot (data_length len) 2) (word_at ibuf 2))) [
            | inr k ↦
                rw (e, f, g, h, k)
                  (inl (
                    inr (λ a. true-false (sym (pos-int_eq _ _ a.sized) ∙ k)),
                    (refl, refl, refl, refl),
                  ))
            | inl k ↦
                rw (e, f, g, h, k)
                  (inr (
                    refl,
                    record {
                      magic = ground arith;
                      command = (==_iff _ _).0 g;
                      tagged = (==_iff _ _).0 h;
                      sized = int_eq-pos _ _ k;
                    },
                    refl,
                    refl,
                    refl,
                  ))
          ]
        ]
      ]
    ]
  ]

  poll-FirstReply :
      (fuel : ℕ) (ibuf : List ℕ) (y : Sys W) (out : ℤ × List ℕ × Sys W)
      → poll usb fuel ibuf y ≡ some out
      → FirstReply usb y.dev.usb_cam ibuf y.world (out.0, out.1, out.2.world)
  unfolding poll control_cam
  poll-FirstReply zero ibuf y out e = absurd (none-is e)
  poll-FirstReply (suc fuel) ibuf y out e =
      let got = usb.control_transfer y.dev.usb_cam 0xc0 0 0 0 ibuf y.world in
      elim (Bool-cases (int_eq got.0 0)) [
        | inl z ↦
            later ibuf y.world _ z
              (poll-FirstReply fuel got.1 (record y { world = got.2 }) out (rw z at e))
        | inr n ↦ rw (← some-is (rw n at e)) (now ibuf y.world n)
      ]

  -- Polling changes nothing but the world, and ends with a length that is not zero.
  pub poll-keeps :
      (fuel : ℕ) (ibuf : List ℕ) (y : Sys W) {out : ℤ × List ℕ × Sys W}
      → poll usb fuel ibuf y ≡ some out
      → (out.2.dev ≡ y.dev) × (out.2.heap ≡ y.heap) × (out.2.delivered ≡ y.delivered)
  unfolding poll
  poll-keeps zero ibuf y e = ground arith
  poll-keeps (suc fuel) ibuf y {out} e =
      elim (Bool-cases (int_eq (control_cam usb 0xc0 ibuf y).0 0)) [
        | inl z ↦ poll-keeps fuel _ _ (rw z at e)
        | inr n ↦ let q = rw n at e in ground arith
      ]

  poll-Answered :
      (fuel cmd reply_len : ℕ) (res : ℤ) (ibuf : List ℕ) (y : Sys W) (w : W) (r : Reply W)
      → (poll usb fuel ibuf (record y { world = w }) >>= λ o.
          some (check_reply usb cmd reply_len res o.0 o.1 o.2))
        ≡ some r
      → IsReplied cmd reply_len ibuf w y r
  poll-Answered fuel cmd reply_len res ibuf y w r e =
      let (o, p, q) =
        >>=-eq_some (poll usb fuel ibuf (record y { world = w }))
          (λ o. some (check_reply usb cmd reply_len res o.0 o.1 o.2)) e in
      let (d, h, l) = poll-keeps fuel ibuf (record y { world = w }) p in
      let c = check_reply-Checked cmd reply_len res o.0 o.1 o.2 in
      (
        (o.0, o.1, o.2.world),
        poll-FirstReply fuel ibuf (record y { world = w }) o p,
        carry cmd reply_len o.0 o.1 o.2 y r d h l (rw (some-is q) at c),
      )

  -- Replies to commands. Let `send_cmd` come to an end. Where the command does not fit `obuf`, has an
  -- odd length or its transfer fails, the result is negative, nothing is stored through `replybuf`, and
  -- the device with its tag is as before. Otherwise the first reply of the camera that is not empty is
  -- checked. If it is at least a header and its magic, command, tag and length are those of the
  -- command, the result is the number of its data bytes, these are what is stored, at most `reply_len`
  -- of them, and the tag is advanced modulo 2^16. If not, nothing is stored and the device is as before.
  pub send_cmd-Answered :
      (fuel cmd : ℕ) (cmdbuf : List ℕ) (reply_len : ℕ) (ibuf : List ℕ) (y : Sys W) (r : Reply W)
      → send_cmd usb fuel cmd cmdbuf reply_len ibuf y ≡ some r
      → IsUnsent cmd cmdbuf y r
        ⊎ IsReplied cmd reply_len ibuf
            (control_cam usb 0x40 (request cmd y.dev.cam_tag cmdbuf) y).2
            y
            r
  unfolding send_cmd
  send_cmd-Answered fuel cmd cmdbuf reply_len ibuf y r = elim (Bool-cases (is_bad cmdbuf)) [
    | inl bad ↦ rw bad (λ e. rw (← some-is e) (inl (inl refl, refl, (refl, refl, refl, refl))))
    | inr good ↦ rw good (sent (control_cam usb 0x40 (request cmd y.dev.cam_tag cmdbuf) y).0 _)
  ]
    where
      sent :
          (res : ℤ) (w : W)
          → (elim res [
            | negsuc n ↦ some (record { res = negsuc n; stored = []; sys = record y { world = w } })
            | pos n ↦
                (poll usb fuel ibuf (record y { world = w }) >>= λ o.
                some (check_reply usb cmd reply_len (pos n) o.0 o.1 o.2))
          ])
            ≡ some r
          → (((false ≡ true) ⊎ (is_neg res ≡ true)) × (is_neg r.res ≡ true) × IsSilent y r)
            ⊎ IsReplied cmd reply_len ibuf w y r
      sent (negsuc n) w e = rw (← some-is e) (inl (inr refl, refl, (refl, refl, refl, refl)))
      sent (pos n) w e = inr (poll-Answered fuel cmd reply_len (pos n) ibuf y w r e)
