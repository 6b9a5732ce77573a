-- ===== src/Uploader.antt =====
-- The page that uploads wedding photos: apps/web/src/components/admin/CloudinaryImageUploader.tsx.
pub mod Images
pub mod Queue
pub mod Laws
pub mod Settling
pub mod Sending
pub mod Working
pub mod Tests
