-- ===== src/Camera/Control.antt =====
-- `send_cmd` and `write_register` of libfreenect/src/cameras.c: commands to the camera as control
-- transfers with a reply. Words are little-endian, as on the machines that `fn_le16` is the identity
-- on. `none` means that the loop that polls for the reply has not ended with the fuel given.
pub mod Laws
pub mod Replies
use quartz_composer_open_kin.Device.{Libusb, Device, Sys}
use quartz_composer_open_kin.Prelude.{
  ℕ, zero, suc, ◌+◌, ◌-◌, ◌*◌, ◌/◌, ◌%◌, ◌^◌, Bool, true, false, Option, none, some, List, [], ◌∷◌,
  ◌++◌, ◌==◌, ltb, if◌then◌else◌, not, ◌&&◌, ◌||◌, length, get_or, take, drop, ◌>>=◌, u8, u16, ℤ,
  pos, negsuc, sub_ℕ, quot,
}

-- A 16-bit word in memory, and back.
abbrev pub le16 : ℕ → List ℕ
le16 w = u8 w ∷ u8 (w / 256) ∷ []

abbrev pub word_at : List ℕ → ℕ → ℕ
word_at buf i = get_or buf i 0 + 256 * get_or buf (i + 1) 0

-- `sizeof(cam_hdr)`, and the sizes of `obuf` and `ibuf`.
abbrev pub cam_hdr_size : ℕ
cam_hdr_size = 8

abbrev pub obuf_size : ℕ
obuf_size = 0x400

abbrev pub ibuf_size : ℕ
ibuf_size = 0x200

-- The request as it is sent: magic, length in words, command, tag, and the command's data.
abbrev pub request : ℕ → ℕ → List ℕ → List ℕ
request cmd tag cmdbuf =
    0x47 ∷ 0x4d ∷ le16 (length cmdbuf / 2) ++ (le16 cmd ++ (le16 tag ++ cmdbuf))

-- What a call returns, and what it stored through `replybuf`.
pub record Reply (W : Type 0) : Type 0 where
  pub res : ℤ
  pub stored : List ℕ
  pub sys : Sys W

-- `actual_len < sizeof(*rhdr)` compares as unsigned: a negative length passes for a large one.
abbrev pub is_short : ℤ → Bool
is_short (pos n) = ltb n cam_hdr_size
is_short (negsuc n) = false

-- `actual_len > reply_len`, unsigned as well; the number of bytes copied.
abbrev pub copied : ℤ → ℕ → ℕ
copied (pos n) reply_len = if ltb reply_len n then reply_len else n
copied (negsuc n) reply_len = reply_len

abbrev pub int_eq : ℤ → ℕ → Bool
int_eq (pos n) m = n == m
int_eq (negsuc n) m = false

-- `actual_len -= sizeof(*rhdr)`
abbrev pub data_length : ℤ → ℤ
data_length (pos n) = sub_ℕ n cam_hdr_size
data_length (negsuc n) = negsuc (n + cam_hdr_size)

module _ {W : Type 0} (usb : Libusb W) where
  -- `fnusb_control` on the camera.
  unfoldable pub control_cam : ℕ → List ℕ → Sys W → ℤ × List ℕ × W
  control_cam request_type buf y = usb.control_transfer y.dev.usb_cam request_type 0 0 0 buf y.world

  -- `do { … } while (actual_len == 0)`, from the initial contents of `ibuf`.
  unfoldable pub poll : ℕ → List ℕ → Sys W → Option (ℤ × List ℕ × Sys W)
  poll zero ibuf y = none
  poll (suc fuel) ibuf y =
      let (len, buf, w) = control_cam 0xc0 ibuf y in
      let again = poll fuel buf (record y { world = w }) in
      if int_eq len 0 then again else some (len, buf, record y { world = w })

  -- The checks of the reply, and its copy.
  unfoldable pub check_reply : ℕ → ℕ → ℤ → ℤ → List ℕ → Sys W → Reply W
  check_reply cmd reply_len res len ibuf y =
      if is_short len
      then record { res = res; stored = []; sys = y }
      else if not (get_or ibuf 0 0 == 0x52 && get_or ibuf 1 0 == 0x42)
      then record { res = negsuc 0; stored = []; sys = y }
      else if not (word_at ibuf 4 == u16 cmd)
      then record { res = negsuc 0; stored = []; sys = y }
      else if not (word_at ibuf 6 == u16 y.dev.cam_tag)
      then record { res = negsuc 0; stored = []; sys = y }
      else if not (int_eq (quot (data_length len) 2) (word_at ibuf 2))
      then record { res = negsuc 0; stored = []; sys = y }
      else record {
        res = data_length len;
        stored = take (copied (data_length len) reply_len) (drop cam_hdr_size ibuf);
        sys = record y { dev = record (y.dev) { cam_tag = u16 (y.dev.cam_tag + 1) } };
      }

  -- `cmdbuf` is the `cmd_len` bytes of the command, `ibuf` what the reply's buffer holds at first.
  unfoldable pub send_cmd : ℕ → ℕ → List ℕ → ℕ → List ℕ → Sys W → Option (Reply W)
  send_cmd fuel cmd cmdbuf reply_len ibuf y =
      if length cmdbuf % 2 == 1 || ltb (obuf_size - cam_hdr_size) (length cmdbuf)
      then some (record { res = negsuc 0; stored = []; sys = y })
      else let (res, _, w) = control_cam 0x40 (request cmd y.dev.cam_tag cmdbuf) y in
        elim res [
          | negsuc n ↦ some (record { res = negsuc n; stored = []; sys = record y { world = w } })
          | pos n ↦ do
            (len, buf, y') ← poll fuel ibuf (record y { world = w })
            some (check_reply cmd reply_len (pos n) len buf y')
        ]

  -- The result, 0 or what a failed command returned, with the state.
  unfoldable pub write_register : ℕ → List ℕ → ℕ → ℕ → Sys W → Option (ℤ × Sys W)
  write_register fuel ibuf reg value y = do
    r ← send_cmd fuel 0x03 (le16 reg ++ le16 value) 4 ibuf y
    some (elim (r.res) [ negsuc n ↦ (negsuc n, r.sys) | pos n ↦ (pos 0, r.sys) ])
