-- ===== src/Media/Categories.antt =====
-- The media categories of apps/web/src/data/mediaCategories.ts, and the items of
-- apps/web/src/data/media.ts.
use save_the_date.Base.{Bool, true, false, Option, List, [], ◌∷◌, ◌++◌, Text, codes, same, find?}

pub record Category : Type 0 where
  pub slug : Text
  pub title : Text
  pub description : Text
  pub has_photos : Bool
  pub has_videos : Bool

unfoldable pub media_categories : List Category
media_categories =
    record {
      slug = codes "engagement";
      title = codes "Engagement";
      description = codes "Our engagement memories.";
      has_photos = true;
      has_videos = true;
    }
    ∷ record {
      slug = codes "pre-wedding";
      title = codes "Pre-Wedding";
      description = codes "Our pre-wedding portraits.";
      has_photos = true;
      has_videos = false;
    }
    ∷ record {
      slug = codes "traditional-marriage";
      title = codes "Traditional Marriage";
      description = codes "Celebrating our families and traditions.";
      has_photos = true;
      has_videos = true;
    }
    ∷ record {
      slug = codes "civil-wedding";
      title = codes "Civil Wedding";
      description = codes "Our civil wedding ceremony.";
      has_photos = true;
      has_videos = false;
    }
    ∷ record {
      slug = codes "church-wedding";
      title = codes "Church Wedding";
      description = codes "Our church wedding ceremony.";
      has_photos = true;
      has_videos = true;
    }
    ∷ record {
      slug = codes "wedding-reception";
      title = codes "Wedding Reception";
      description = codes "Celebrating with our family and friends.";
      has_photos = true;
      has_videos = true;
    }
    ∷ []

-- `getMediaCategory(slug)`
unfoldable pub get_media_category : Text → Option Category
get_media_category slug = find? (λ c. same c.slug slug) media_categories

-- `getCloudinaryImageFolder(slug)`
unfoldable pub get_cloudinary_image_folder : Text → Text
get_cloudinary_image_folder slug = codes "wedding/media/" ++ (slug ++ codes "/photos")

pub data MediaType : Type 0 where
  image video : MediaType

pub data Aspect : Type 0 where
  portrait landscape : Aspect

pub record MediaItem : Type 0 where
  pub id : Text
  pub title : Text
  pub description : Text
  pub event : Text
  pub date : Text
  pub kind : MediaType
  pub src : Text
  pub thumbnail : Option Text
  pub hero_src : Option Text
  pub poster : Option Text
  pub aspect : Aspect

pub record MediaCollection : Type 0 where
  pub slug : Text
  pub title : Text
  pub description : Text
  pub has_videos : Bool
  pub items : List MediaItem
  pub videos : List MediaItem
