-- ===== src/Camera.antt =====
-- libfreenect/src/cameras.c from a packet to the client's callback, and the control of the camera.
pub mod Process
pub mod Control
pub mod Settings
pub mod Switch
pub mod Session
