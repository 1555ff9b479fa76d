-- ===== src/Tests/Cameras.antt =====
-- The theorems on the camera at concrete inputs, with the small libusb of the tests on devices.
use quartz_composer_open_kin.Camera.Control.{
  Reply, control_cam, send_cmd, write_register, poll, check_reply,
}
use quartz_composer_open_kin.Camera.Control.Laws.{write_register-short}
use quartz_composer_open_kin.Camera.Control.Replies.{send_cmd-Answered, IsUnsent, IsReplied}
use quartz_composer_open_kin.Camera.Process.{convert_video}
use quartz_composer_open_kin.Camera.Process.Laws.{convert_video-overruns}
use quartz_composer_open_kin.Convert.Packed.Value.{AllBelow}
use quartz_composer_open_kin.Core.{no_device}
use quartz_composer_open_kin.Device.{Libusb, video_ir_10bit}
use quartz_composer_open_kin.Memory.{Heap}
use quartz_composer_open_kin.Prelude.{
  ℕ, zero, suc, ◌≡◌, ◌⊎◌, true, none, some, List, [], ◌∷◌, arith, refl, replicate, length-replicate,
  pos, quot,
}
use quartz_composer_open_kin.Stream.{PacketStream}
use quartz_composer_open_kin.Tests.Streams.{small}
use quartz_composer_open_kin.Tests.Devices.{test_usb, fresh}

-- The same with replies of four bytes.
abbrev short_usb : Libusb ℕ
short_usb = record test_usb { control_transfer = λ h t r v i buf w. (pos 4, buf, w) }

write_register-short_example : write_register short_usb 1 [] 6 2 fresh ≡ some (pos 0, fresh)
unfolding control_cam
write_register-short_example =
    write_register-short short_usb 0 [] 6 2 4 3 fresh refl refl (omega arith)

-- What `send_cmd` returns for the camera's answer.
abbrev answered : Reply ℕ
answered = record {
  res = pos 2;
  stored = 0xaa ∷ 0xbb ∷ [];
  sys = record fresh { dev = record no_device { cam_tag = 1 } };
}

answer_run : send_cmd test_usb 1 3 (6 ∷ 0 ∷ []) 4 [] fresh ≡ some answered
unfolding send_cmd poll check_reply control_cam quot
answer_run = refl

send_cmd-Answered_example :
    IsUnsent test_usb 3 (6 ∷ 0 ∷ []) fresh answered ⊎ IsReplied test_usb 3 4 [] 0 fresh answered
unfolding control_cam
send_cmd-Answered_example =
    send_cmd-Answered test_usb 1 3 (6 ∷ 0 ∷ []) 4 [] fresh answered answer_run

AllBelow-replicate : (n : ℕ) → AllBelow 256 (replicate n 7)
AllBelow-replicate zero = tt
AllBelow-replicate (suc n) = (omega arith, AllBelow-replicate n)

abbrev ir_raw : List ℕ
ir_raw = replicate 390400 7

abbrev ir_buffer : List ℕ
ir_buffer = replicate 307200 0

abbrev ir_heap : Heap
ir_heap = record {
  next = 2;
  room = 0;
  fill = 0;
  block = λ p. elim p [ zero ↦ some ir_raw | suc n ↦ some ir_buffer ];
}

abbrev ir_stream : PacketStream
ir_stream = record small { split_bufs = true; raw_buf = some 0; proc_buf = some 1 }

convert_video-overruns_example : convert_video video_ir_10bit ir_stream ir_heap ≡ none
convert_video-overruns_example =
    convert_video-overruns ir_stream ir_heap 0 1 ir_raw ir_buffer refl refl refl refl
      (AllBelow-replicate 390400) (length-replicate {A = ℕ} 390400 7)
      (length-replicate {A = ℕ} 307200 0)
