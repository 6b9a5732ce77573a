-- ===== src/Media/Tests.antt =====
-- Media at a service with two pages.
use save_the_date.Base.{
  ◌≡◌, refl, ◌≢◌, Bool, true, Option, none, some, List, [], ◌∷◌, ◌++◌, map, arith, Text, codes, All,
  Outcome, returned, thrown, same, if◌then◌else◌, false,
}
use save_the_date.Media.Categories.{
  Category, media_categories, MediaItem, MediaCollection, get_cloudinary_image_folder,
}
use save_the_date.Media.Names.{sanitize_video_filename}
use save_the_date.Media.Names.Laws.{IsPlainName, sanitize_video_filename-IsPlainName}
use save_the_date.Media.Paging.{cursor_of, collect}
use save_the_date.Media.Paging.Laws.{HasPages}
use save_the_date.Media.Cloudinary.{
  CloudinaryConfig, CloudinaryResource, CloudinarySearchResponse, Search, map_resource, search_page,
  search_folder, load_cloudinary_media_collections,
}
use save_the_date.Media.Cloudinary.Laws.{
  search_folder-joined, ShowsEach, load_cloudinary_media_collections-ShowsEach,
}

abbrev year_of : Text → Text
year_of s = s

abbrev picture : CloudinaryResource
picture = record {
  asset_id = codes "p1";
  public_id = codes "a/b";
  secure_url = codes "https://x/upload/y";
  asset_folder = none;
  display_name = none;
  file_name = none;
  width = none;
  height = none;
  created_at = none;
}

abbrev next_after : Option Text → Option Text
next_after none = some (codes "c")
next_after (some s) = none

-- Each search has a picture, on a first page and on a second one.
abbrev service : Search → CloudinarySearchResponse
service s = record {
  is_ok = true;
  status = 200;
  resources = some (picture ∷ []);
  next_cursor = next_after s.next_cursor;
  error_message = none;
}

abbrev category : Category
category = record {
  slug = codes "engagement";
  title = codes "Engagement";
  description = [];
  has_photos = true;
  has_videos = true;
}

two_pages :
    (c : Category)
    → HasPages (search_page year_of service c) none ((picture ∷ []) ∷ ((picture ∷ []) ∷ []))
unfolding search_page
two_pages c = (b'c', [], refl, refl)

search_folder-joined_example :
    search_folder year_of service 2 category
    ≡ some (returned (map (map_resource year_of (codes "Engagement") []) (picture ∷ picture ∷ [])))
search_folder-joined_example =
    search_folder-joined year_of service 2 category ((picture ∷ []) ∷ ((picture ∷ []) ∷ []))
      (two_pages category) (omega arith)

abbrev config : CloudinaryConfig
config = record { cloud_name = codes "n"; api_key = codes "k"; api_secret = codes "s" }

abbrev answers : Category → Outcome Text (List MediaItem)
answers c =
    if same c.slug (codes "engagement")
    then thrown (codes "no such folder")
    else returned (map (map_resource year_of c.title c.description) (picture ∷ picture ∷ []))

-- The service refuses one folder.
abbrev refusing : Search → CloudinarySearchResponse
refusing s =
    if same s.expression (codes "asset_folder=\"wedding/media/engagement/photos\"")
    then record {
      is_ok = false;
      status = 404;
      resources = none;
      next_cursor = none;
      error_message = some (codes "no such folder");
    }
    else service s

every_found : All (λ c. search_folder year_of refusing 2 c ≡ some (answers c)) media_categories
unfolding media_categories search_folder collect cursor_of search_page get_cloudinary_image_folder
    same
every_found = (refl, (refl, (refl, (refl, (refl, (refl, tt))))))

load_cloudinary_media_collections-ShowsEach_example :
    (shown : List MediaCollection) × (load_cloudinary_media_collections year_of refusing 2
        (some config)
      ≡ some shown)
    × ShowsEach year_of refusing 2 answers media_categories shown
load_cloudinary_media_collections-ShowsEach_example =
    load_cloudinary_media_collections-ShowsEach year_of refusing 2 config answers every_found

-- The keys are given in their order.
abbrev before : Text → Text → Bool
before s t = false

abbrev lower : Text → Text
lower s = s

sanitized : sanitize_video_filename lower lower (codes "my clip!.mp4") ≡ some (codes "my-clip.mp4")
unfolding sanitize_video_filename
sanitized = refl

sanitize_video_filename-IsPlainName_example :
    (base : Text) × (codes "my-clip.mp4" ≡ base ++ codes ".mp4") × (base ≢ []) × IsPlainName base
sanitize_video_filename-IsPlainName_example =
    sanitize_video_filename-IsPlainName lower lower (codes "my clip!.mp4") (codes "my-clip.mp4")
      (λ s h. h) sanitized
