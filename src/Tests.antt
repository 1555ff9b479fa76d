-- ===== src/Tests.antt =====
-- The theorems at concrete inputs.
mod Streams
mod Frames
mod Devices
mod Endings
mod Cameras
mod Recordings
mod Sessions
mod Frontends
mod Closing
mod Plugins
mod Stops
mod Threads
mod Contexts
mod Cycles
