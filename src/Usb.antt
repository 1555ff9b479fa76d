-- ===== src/Usb.antt =====
-- libfreenect/src/usb_libusb10.c: the isochronous streams, and the devices on the bus.
pub mod Iso
pub mod Bus
