-- ===== src/Convert.antt =====
-- libfreenect/src/cameras.c, the conversions of a raw frame into the format that the client asked
-- for: packed depth and infrared, UYVY and Bayer.
pub mod Packed
pub mod Uyvy
pub mod Bayer
