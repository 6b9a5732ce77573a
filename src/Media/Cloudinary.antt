-- ===== src/Media/Cloudinary.antt =====
-- The pictures: apps/web/src/lib/cloudinaryMedia.ts. The service is a function from the search that
-- is asked for to its answer, for the credentials that are configured; `year_of` is the year of a
-- date that is read from text. Next's cache of the two lists is left out.
pub mod Laws
use save_the_date.Base.{
  ℕ, Bool, true, false, not, ◌&&◌, Option, none, some, List, [], ◌∷◌, ◌++◌, map, Text, codes, same,
  is_empty, or_text, or_else, find?, ltb, ◌==◌, if◌then◌else◌, Outcome, returned, thrown,
}
use save_the_date.Mail.Message.{to_string}
use save_the_date.Media.Categories.{
  Category, media_categories, get_cloudinary_image_folder, image, Aspect, portrait, landscape,
  MediaItem, MediaCollection,
}
use save_the_date.Media.Names.{humanize_filename, starts_with}
use save_the_date.Media.Paging.{Page, collect}

pub record CloudinaryConfig : Type 0 where
  pub cloud_name : Text
  pub api_key : Text
  pub api_secret : Text

-- `getCloudinaryConfig()`, for the three variables of the environment
pub get_cloudinary_config : Option Text → Option Text → Option Text → Option CloudinaryConfig
get_cloudinary_config (some (a ∷ name)) (some (b ∷ key)) (some (c ∷ secret)) =
    some (record { cloud_name = a ∷ name; api_key = b ∷ key; api_secret = c ∷ secret })
get_cloudinary_config _ _ _ = none

pub record CloudinaryResource : Type 0 where
  pub asset_id : Text
  pub public_id : Text
  pub secure_url : Text
  pub asset_folder : Option Text
  pub display_name : Option Text
  pub file_name : Option Text
  pub width : Option ℕ
  pub height : Option ℕ
  pub created_at : Option Text

-- `response.ok`, the status, and the fields of the body; a body that is not JSON has none.
pub record CloudinarySearchResponse : Type 0 where
  pub is_ok : Bool
  pub status : ℕ
  pub resources : Option (List CloudinaryResource)
  pub next_cursor : Option Text
  pub error_message : Option Text

-- The body of a search.
pub record Search : Type 0 where
  pub expression : Text
  pub max_results : ℕ
  pub next_cursor : Option Text

drop_prefix : Text → Text → Text
drop_prefix [] s = s
drop_prefix (p ∷ ps) [] = []
drop_prefix (p ∷ ps) (c ∷ s) = drop_prefix ps s

-- `url.replace(pattern, by)`: the first occurrence
replace_first : Text → Text → Text → Text
replace_first pattern by [] = []
replace_first pattern by (c ∷ s) =
    let rest = replace_first pattern by s in
    if starts_with pattern (c ∷ s) then by ++ drop_prefix pattern (c ∷ s) else c ∷ rest

-- `addTransformation(url, transformation)`
pub add_transformation : Text → Text → Text
add_transformation url transformation =
    replace_first (codes "/upload/") (codes "/upload/" ++ (transformation ++ codes "/")) url

-- `s.split("/").pop()`, with the part that is being read
last_part : Text → Text → Text
last_part part [] = part
last_part part (c ∷ s) =
    let later = last_part [] s in
    let longer = last_part (part ++ c ∷ []) s in if c == b'/' then later else longer

-- `display_name || filename || fallbackName`
source_name : CloudinaryResource → Text
source_name r =
    or_text (or_else r.display_name [])
      (or_text (or_else r.file_name []) (last_part [] r.public_id))

-- `width && height && height > width`
aspect_of : Option ℕ → Option ℕ → Aspect
aspect_of (some width) (some height) =
    if not (width == 0) && not (height == 0) && ltb width height then portrait else landscape
aspect_of none height = landscape
aspect_of (some width) none = landscape

module _ (year_of : Text → Text) where
  created_year : Option Text → Text
  created_year none = []
  created_year (some []) = []
  created_year (some (c ∷ s)) = year_of (c ∷ s)

  -- `mapResource(resource, category)`, for the title and the description of the category
  pub map_resource : Text → Text → CloudinaryResource → MediaItem
  map_resource title description r = record {
    id = r.asset_id;
    title = humanize_filename (source_name r);
    description = description;
    event = title;
    date = created_year r.created_at;
    kind = image;
    src = add_transformation r.secure_url (codes "f_auto,q_auto,c_limit,w_2400");
    thumbnail =
        some
          (add_transformation r.secure_url (codes "f_auto,q_auto:eco,c_fill,g_auto,w_900,h_560"));
    hero_src = none;
    poster = none;
    aspect = aspect_of r.width r.height;
  }

  module _ (service : Search → CloudinarySearchResponse) where
    failure : CloudinarySearchResponse → Text → Text
    failure answer otherwise = or_text (or_else answer.error_message []) otherwise

    -- One round of the loop of `searchFolder`.
    unfoldable pub search_page : Category → Option Text → Outcome Text (Page CloudinaryResource)
    unfolding failure
    search_page category cursor =
        let answer = service (record {
          expression =
              codes "asset_folder=\"" ++ (get_cloudinary_image_folder category.slug ++ codes "\"");
          max_results = 500;
          next_cursor = cursor;
        }) in
        if not answer.is_ok
        then thrown (
            failure answer (
              codes "Cloudinary returned "
              ++ (to_string answer.status
                  ++ (codes " while loading " ++ (category.title ++ codes ".")))))
        else returned (record { items = or_else answer.resources []; next = answer.next_cursor })

    mapped : Category → Outcome Text (List CloudinaryResource) → Outcome Text (List MediaItem)
    mapped category (thrown e) = thrown e
    mapped category (returned resources) =
        returned (map (map_resource category.title category.description) resources)

    -- `searchFolder(category, config)`, with the rounds that may be left
    unfoldable pub search_folder : ℕ → Category → Option (Outcome Text (List MediaItem))
    unfolding mapped
    search_folder fuel category = elim (collect (search_page category) fuel none []) [
      | none ↦ none
      | some found ↦ some (mapped category found)
    ]

    featured_item : CloudinaryResource → MediaItem
    featured_item r =
        elim (find? (λ c. same (or_else r.asset_folder []) (get_cloudinary_image_folder c.slug))
          media_categories) [
            | none ↦
                map_resource (codes "Featured")
                  (codes "A favorite moment from our wedding journey.") r
            | some c ↦ map_resource c.title c.description r
          ]

    featured : CloudinaryResource → MediaItem
    featured r = record (featured_item r) {
      hero_src =
          some
            (add_transformation r.secure_url (codes "f_auto,q_auto,c_fill,g_auto,w_2400,h_1400"));
    }

    -- `loadCloudinaryFeaturedImages()`
    pub load_cloudinary_featured_images : Option CloudinaryConfig → List MediaItem
    load_cloudinary_featured_images none = []
    load_cloudinary_featured_images (some config) =
        let answer = service (record {
          expression = codes "resource_type:image AND tags=featured";
          max_results = 6;
          next_cursor = none;
        }) in
        if not answer.is_ok then [] else map featured (or_else answer.resources [])

    pub collection : Category → List MediaItem → MediaCollection
    collection category items = record {
      slug = category.slug;
      title = category.title;
      description = category.description;
      has_videos = category.has_videos;
      items = items;
      videos = [];
    }

    -- The `try` and the `catch` of one category.
    pub items_or_none : Outcome Text (List MediaItem) → List MediaItem
    items_or_none (returned items) = items
    items_or_none (thrown e) = []

    -- `Promise.all` over the categories
    load_each : ℕ → List Category → Option (List MediaCollection)
    load_each fuel [] = some []
    load_each fuel (c ∷ cs) = elim (search_folder fuel c) [
      | none ↦ none
      | some found ↦ elim (load_each fuel cs) [
        | none ↦ none
        | some rest ↦ some (collection c (items_or_none found) ∷ rest)
      ]
    ]

    -- `loadCloudinaryMediaCollections()`
    pub load_cloudinary_media_collections :
        ℕ → Option CloudinaryConfig → Option (List MediaCollection)
    load_cloudinary_media_collections fuel none = some (map (λ c. collection c []) media_categories)
    load_cloudinary_media_collections fuel (some config) = load_each fuel media_categories
