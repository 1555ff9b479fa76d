-- ===== src/Plugin.antt =====
-- ImageWithKinectPlugIn.mm, DepthOutputImageProvider.mm and RGBOutputImageProvider.mm: the Quartz
-- Composer plug-in, from the driver's callbacks to the images that it provides.
pub mod Depth
pub mod Exchange
pub mod Life
pub mod Render
