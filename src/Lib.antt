-- ===== src/Lib.antt =====
-- The Quartz Composer plug-in for the Kinect and its driver libfreenect: a model of their code and the
-- theorems that make it correct. A camera sends frames as isochronous USB packets. `stream_process`
-- reassembles them in a buffer, a conversion turns the raw frame into the format that the client chose,
-- and the client's callback gets it. Control transfers set registers and move the motor. Two clients
-- are modelled on top: the viewer of the driver's examples, and the plug-in itself, which hands the
-- frames from the driver's thread to the one that renders.
--
-- Parts of the program and their files:
-- Stream, Stream/Process: `packet_stream` of libfreenect/src/freenect_internal.h and `stream_process` of
--   libfreenect/src/cameras.c, cut at the comments of the source: `sync`, `account_lost`, `check_packet`,
--   `store_packet` with `count_packet`. Below it, Total is about safety, Frames about the counters,
--   Transmitter is the camera's side, InTurn and Reassembly are about whole frames.
-- Stream/Buffers: `stream_init`, `stream_freebufs` and `stream_setbuf` of cameras.c.
-- Convert/Packed, Convert/Uyvy, Convert/Bayer: the conversions of cameras.c. Bayer/Reference is the
--   demosaicing of `convert_bayer_to_rgb` pixel by pixel, Bayer/Described the one of its comment.
-- Device: the structures of freenect_internal.h and usb_libusb10.h, the formats and sizes of
--   libfreenect/include/libfreenect.h, and libusb as the record `Libusb` of operations.
-- Camera/Process: `depth_process` and `video_process`. Camera/Control: `send_cmd` and `write_register`.
--   Camera/Switch: starting and stopping the streams. Camera/Settings: formats, callbacks and buffers.
-- Camera/Session: packets and setters in any order. Good is the invariant, Setters and Safe are about
--   keeping it, Ready and Start about how starting the streams establishes it. Below Camera/Process,
--   Converts and Safety show that a frame of bytes is converted inside its buffers.
-- Usb/Iso, Usb/Bus: libfreenect/src/usb_libusb10.c, the transfers and the devices on the bus. Below
--   Usb/Iso, Carried and Safe are about the events of two running streams, Quiet, Drain and Frees about
--   the wait and the frees of `fnusb_stop_iso`; Camera/Switch/Replies and Camera/Switch/Stops put them
--   together for `freenect_stop_depth` and `freenect_stop_video`, Camera/Switch/Starts for starting.
-- Tilt: libfreenect/src/tilt.c. Core: libfreenect/src/core.c, contexts, with their list
--   of devices in Core/Devices; Links, Unlink and Shutdown below it are about opening, closing and
--   shutting down. Tilt/Accessors has the functions that compute doubles from a report.
-- Fakenect: libfreenect/src/fakenect.c, recorded sessions: Index reads the index and the files, Events
--   plays them, Api has the functions that tell the fake device from a real one, with `fake_` before
--   the name of the function that each stands in for. Files are the parameter `Host`. Events/Kept and
--   Events/Memory are about the memory, Events/Faults about a missing index; the strings that
--   `parse_line` builds for a path are not blocks.
-- Viewer: libfreenect/examples/glview.c. Frames is about the depth colours, Buffers, Shown and Callbacks
--   about the exchange of buffers, Swapped about which buffers there are, Safe about
--   the viewer on top of the driver, Close about the frees of the Escape key, behind which it ends. Thread is its driver thread and `main` before it, Started
--   what the thread sets up.
-- Plugin/Depth: `depth_cb` of ImageWithKinectPlugIn.mm, with its colours in Frame and its measures in
--   Statistics. Plugin/Exchange: `rgb_cb` there and the head of `renderToBuffer:` of
--   RGBOutputImageProvider.mm as the steps of two threads, with Turns for orderly and Race for other
--   interleavings. Plugin/Render: the pixels that `renderToBuffer:` writes.
-- Plugin/Life: `freenect_threadfunc` of ImageWithKinectPlugIn.mm as the steps of a thread, on the state of
--   the plug-in and of the driver's context; Execute below it has `startExecution:`, `execute:` and
--   `stopExecution:`. Inv is the invariant; Steps, Opens and Main are about keeping it, Cycle about all
--   interleavings, Race about a change of the angle while the thread ends, Joins about what a join
--   comes to, Stop about the end of the plug-in, Ended about a recording that was read to its end.
-- Memory: malloc, free and memcpy over numbered blocks; `none` is a fault, that is, what C leaves
--   undefined. Bits, Prelude: shared helpers. Tests: the theorems at concrete inputs.
--
-- One device at a time is the state of an operation, so the events that libusb reports to it are its
-- own; Core keeps the devices of a context in a store and runs the calls of each by itself.
--
-- State is passed explicitly: an operation takes the stream, device or context with the heap and the
-- state `W` of libusb, and returns what it leaves. Buffers are lists of bytes; an `int` that is never
-- negative is a native number, one that can be is of type `ℤ`, both without the bound
-- of 2^31; a cast wraps around by `% 2 ^ w`.
-- The loops that wait for the device (`poll`, `drain`) run on fuel, since only the device can end them,
-- and so do the walks along the list of devices, where one step for each device is enough. A step of a
-- thread is what runs under a lock, or the part of it between two accesses that matter.
--
-- Joining the driver's thread is six steps of it at most: it is asked to end first, so each step but the
-- last leads to the next stage. The part of `execute:` that changes the device is one step, since
-- Quartz Composer's thread waits for the other before it touches the device.
--
-- Not modelled: the plug-in's ports, outputs and views, and its depth image, which is copied as it is;
-- OpenGL and GLUT; the gamma tables, which `powf` fills and which are parameters; log messages beside
-- `fn_log`, which change no state; the delays of a played session; and libusb-1.0, a vendored library,
-- whose calls are the parameter. The viewer's loop is given the packets of each round, and the depth
-- frames that arrive while it waits for the old video stream to end are delivered without its callback.
-- Words are little-endian, as `fn_le16` assumes by default, and the numbers of transfers are those for
-- the Mac.
pub mod Prelude
pub mod Bits
pub mod Memory
pub mod Convert
pub mod Stream
pub mod Device
pub mod Camera
pub mod Usb
pub mod Tilt
pub mod Core
pub mod Viewer
pub mod Plugin
pub mod Fakenect
pub mod Tests
