-- ===== src/Media.antt =====
-- The pictures and videos of the original site: apps/web/src/data/mediaCategories.ts,
-- apps/web/src/lib/cloudinaryMedia.ts, apps/web/src/lib/r2.ts and the handlers under
-- apps/web/app/api/media.
pub mod Categories
pub mod Names
pub mod Paging
pub mod Cloudinary
pub mod Videos
pub mod Upload
mod Tests
