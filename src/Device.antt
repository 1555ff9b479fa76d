-- ===== src/Device.antt =====
-- The state of an open device (libfreenect/src/freenect_internal.h and usb_libusb10.h), the formats of
-- include/libfreenect.h, and the interface of libusb, which is not modelled but taken as a parameter.
use quartz_composer_open_kin.Memory.{Heap, Pointer}
use quartz_composer_open_kin.Prelude.{ℕ, ◌*◌, Bool, Option, List, ℤ}
use quartz_composer_open_kin.Stream.{PacketStream}

-- `freenect_video_format` and `freenect_depth_format`
pub data VideoFormat : Type 0 where
  video_rgb video_bayer video_ir_8bit video_ir_10bit video_ir_10bit_packed video_yuv_rgb
        video_yuv_raw :
      VideoFormat

pub data DepthFormat : Type 0 where
  depth_11bit depth_10bit depth_11bit_packed depth_10bit_packed : DepthFormat

-- The pixel counts and frame sizes of libfreenect.h; `sizeof(uint16_t)` is 2.
abbrev pub frame_pix : ℕ
frame_pix = 480 * 640

abbrev pub ir_frame_pix : ℕ
ir_frame_pix = 488 * 640

abbrev pub video_rgb_size : ℕ
video_rgb_size = frame_pix * 3

abbrev pub video_bayer_size : ℕ
video_bayer_size = frame_pix

abbrev pub video_yuv_raw_size : ℕ
video_yuv_raw_size = frame_pix * 2

abbrev pub video_ir_8bit_size : ℕ
video_ir_8bit_size = ir_frame_pix

abbrev pub video_ir_10bit_packed_size : ℕ
video_ir_10bit_packed_size = 390400

abbrev pub depth_11bit_size : ℕ
depth_11bit_size = frame_pix * 2

abbrev pub depth_10bit_size : ℕ
depth_10bit_size = depth_11bit_size

abbrev pub depth_11bit_packed_size : ℕ
depth_11bit_packed_size = 422400

abbrev pub depth_10bit_packed_size : ℕ
depth_10bit_packed_size = 384000

-- `freenect_raw_tilt_state`; the status is the byte that the motor sent.
pub record TiltState : Type 0 where
  pub accelerometer_x : ℤ
  pub accelerometer_y : ℤ
  pub accelerometer_z : ℤ
  pub tilt_angle : ℤ
  pub tilt_status : ℕ

-- `fnusb_isoc_stream`. `xfers` are the transfers of the array that `xfers_array` points to. The
-- parent and the callback are those of the device and the endpoint, and are not fields here.
pub record IsocStream : Type 0 where
  pub xfers : List ℕ
  pub xfers_array : Pointer
  pub buffer : Pointer
  pub num_xfers : ℕ
  pub pkts : ℕ
  pub len : ℕ
  pub dead : Bool
  pub dead_xfers : ℕ

-- `struct _freenect_device` without its list pointer and context; a callback is a number that the
-- client knows it by. `usb_cam` and `usb_motor` are the `libusb_device_handle`s.
pub record Device : Type 0 where
  pub user_data : Pointer
  pub usb_cam : Option ℕ
  pub depth_isoc : IsocStream
  pub video_isoc : IsocStream
  pub depth_cb : Option ℕ
  pub video_cb : Option ℕ
  pub video_format : VideoFormat
  pub depth_format : DepthFormat
  pub cam_tag : ℕ
  pub depth : PacketStream
  pub video : PacketStream
  pub usb_motor : Option ℕ
  pub raw_state : TiltState

-- A call of the client's callback: which, with what buffer and timestamp.
pub record Delivery : Type 0 where
  pub cb : ℕ
  pub buf : Pointer
  pub timestamp : ℕ

-- The two isochronous streams of a device, by endpoint 0x82 and 0x81.
pub data Endpoint : Type 0 where
  depth_ep video_ep : Endpoint

-- What libusb reports for a transfer: whether its status is COMPLETED, and the bytes of each packet.
pub record Completion : Type 0 where
  pub endpoint : Endpoint
  pub xfer : ℕ
  pub completed : Bool
  pub packets : List (List ℕ)

pub record Descriptor : Type 0 where
  pub id_vendor : ℕ
  pub id_product : ℕ

-- The functions of libusb that the driver calls, over the state `W` of libusb and the devices. A
-- control transfer takes the buffer and returns it as the transfer left it.
pub record Libusb (W : Type 0) : Type 0 where
  pub control_transfer : Option ℕ → ℕ → ℕ → ℕ → ℕ → List ℕ → W → ℤ × List ℕ × W
  pub init : W → ℤ × Pointer × W
  pub exit : Pointer → W → W
  pub get_device_list : Pointer → W → ℤ × List ℕ × W
  pub get_device_descriptor : ℕ → W → ℤ × Descriptor
  pub open_handle : ℕ → W → ℤ × Option ℕ × W
  pub claim_interface : Option ℕ → W → ℤ × W
  pub release_interface : Option ℕ → W → W
  pub close : Option ℕ → W → W
  pub free_device_list : W → W
  pub alloc_transfer : ℕ → W → ℕ × W
  pub fill_iso_transfer : ℕ → Option ℕ → Endpoint → ℕ → ℕ → ℕ → W → W
  pub set_iso_packet_lengths : ℕ → ℕ → W → W
  pub submit_transfer : ℕ → W → ℤ × W
  pub cancel_transfer : ℕ → W → W
  pub free_transfer : ℕ → W → W
  pub handle_events : W → ℤ × List Completion × W

-- A device with the memory, the rest of the world and the frames delivered so far, newest first.
pub record Sys (W : Type 0) : Type 0 where
  pub dev : Device
  pub heap : Heap
  pub world : W
  pub delivered : List Delivery
