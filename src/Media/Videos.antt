-- ===== src/Media/Videos.antt =====
-- The videos: apps/web/src/lib/r2.ts. The object store is a function from a prefix and a
-- continuation token to a page of objects or an error; `encode` is `encodeURIComponent`, `year` is
-- the year of an instant, and `title_first` is the order of `localeCompare` on titles.
use save_the_date.Base.{
  ℕ, Bool, false, not, ◌||◌, Option, none, some, List, [], ◌∷◌, ◌++◌, map, Text, codes, is_empty,
  or_else, any, length, drop, ◌==◌, if◌then◌else◌, Outcome, returned, thrown,
}
use mathlib.Core.List.{reverse}
use save_the_date.Mail.Message.{to_string, join}
use save_the_date.Media.Categories.{Category, media_categories, video, landscape, MediaItem}
use save_the_date.Media.Names.{humanize_filename, is_upper, ends_with}
use save_the_date.Media.Paging.{Page, collect}
use Prim.Native.Nat.{◌+◌}

pub record R2Config : Type 0 where
  pub account_id : Text
  pub access_key_id : Text
  pub secret_access_key : Text
  pub bucket_name : Text
  pub public_url : Text

drop_slashes : Text → Text
drop_slashes [] = []
drop_slashes (c ∷ s) = if c == b'/' then drop_slashes s else c ∷ s

-- `.replace(/\/+$/, "")`
strip_slashes : Text → Text
strip_slashes s = reverse (drop_slashes (reverse s))

-- `getR2Config()`, for the five variables of the environment; one that is missing is empty
pub get_r2_config : Text → Text → Text → Text → Text → Option R2Config
get_r2_config account_id access_key_id secret_access_key bucket_name public_url =
    if any is_empty (
      account_id
      ∷ (access_key_id ∷ (secret_access_key ∷ (bucket_name ∷ (strip_slashes public_url ∷ [])))))
    then none
    else some (record {
      account_id = account_id;
      access_key_id = access_key_id;
      secret_access_key = secret_access_key;
      bucket_name = bucket_name;
      public_url = strip_slashes public_url;
    })

-- `getR2VideoPrefix(slug)`
pub get_r2_video_prefix : Text → Text
get_r2_video_prefix slug = codes "media/" ++ (slug ++ codes "/videos/")

-- An object of a listing; the key and the size may be missing.
pub record Object : Type 0 where
  pub key : Option Text
  pub size : Option ℕ
  pub last_modified : Option ℕ

pub record Listing : Type 0 where
  pub contents : Option (List Object)
  pub is_truncated : Bool
  pub next_continuation_token : Option Text

-- The letters of ASCII in lower case, which decide the match of `/…$/i`.
small : Text → Text
small s = map (λ c. if is_upper c then c + 32 else c) s

-- `/\.(mp4|mov)$/i`
is_video : Text → Bool
is_video key = ends_with (codes ".mp4") (small key) || ends_with (codes ".mov") (small key)

-- `s.split("/")`
split_slash : Text → Text → List Text
split_slash part [] = part ∷ []
split_slash part (c ∷ s) =
    let next = split_slash [] s in
    let longer = split_slash (part ++ c ∷ []) s in if c == b'/' then part ∷ next else longer

module _ (encode : Text → Text) (year : ℕ → ℕ) (title_first : Text → Text → Bool) where
  -- `version ? … : url`
  versioned : Text → Option ℕ → Text
  versioned url none = url
  versioned url (some n) = if n == 0 then url else url ++ (codes "?v=" ++ to_string n)

  -- `getPublicObjectUrl(publicUrl, key, version)`
  pub get_public_object_url : Text → Text → Option ℕ → Text
  get_public_object_url public_url key version =
      versioned (public_url ++ (codes "/" ++ join (codes "/") (map encode (split_slash [] key))))
        version

  year_text : Option ℕ → Text
  year_text none = []
  year_text (some t) = to_string (year t)

  video_item : R2Config → Category → Text → Text → Option ℕ → MediaItem
  video_item config category key file_name modified = record {
    id = key;
    title = humanize_filename file_name;
    description = category.description;
    event = category.title;
    date = year_text modified;
    kind = video;
    src = get_public_object_url config.public_url key modified;
    thumbnail = none;
    hero_src = none;
    poster = none;
    aspect = landscape;
  }

  is_zero : Option ℕ → Bool
  is_zero none = false
  is_zero (some n) = n == 0

  -- The body of the `for` loop: the videos that one object adds.
  object_items : R2Config → Category → Object → List MediaItem
  object_items config category o =
      let key = or_else o.key [] in
      let file_name = drop (length (get_r2_video_prefix category.slug)) key in
      if is_empty key || not (is_video key) || is_zero o.size
      then []
      else if is_empty file_name || any (λ c. c == b'/') file_name
      then []
      else video_item config category key file_name o.last_modified ∷ []

  page_items : R2Config → Category → List Object → List MediaItem
  page_items config category [] = []
  page_items config category (o ∷ os) =
      object_items config category o ++ page_items config category os

  -- `items.sort(…)`, which keeps the order of equal titles
  insert_item : MediaItem → List MediaItem → List MediaItem
  insert_item i [] = i ∷ []
  insert_item i (j ∷ js) =
      if title_first j.title i.title then j ∷ insert_item i js else i ∷ (j ∷ js)

  sort_items : List MediaItem → List MediaItem
  sort_items [] = []
  sort_items (i ∷ is) = insert_item i (sort_items is)

  module _ (store : Text → Option Text → Outcome Text Listing) where
    -- One round of the loop.
    list_page : R2Config → Category → Option Text → Outcome Text (Page MediaItem)
    list_page config category token = elim (store (get_r2_video_prefix category.slug) token) [
      | thrown e ↦ thrown e
      | returned l ↦ returned (record {
        items = page_items config category (or_else l.contents []);
        next = if l.is_truncated then l.next_continuation_token else none;
      })
    ]

    sorted : Outcome Text (List MediaItem) → Outcome Text (List MediaItem)
    sorted (thrown e) = thrown e
    sorted (returned items) = returned (sort_items items)

    -- `listCategoryVideos(category, config, client)`, with the rounds that may be left
    pub list_category_videos : ℕ → R2Config → Category → Option (Outcome Text (List MediaItem))
    list_category_videos fuel config category =
        if not category.has_videos
        then some (returned [])
        else elim (collect (list_page config category) fuel none []) [
          | none ↦ none
          | some found ↦ some (sorted found)
        ]

    -- The videos of one category, which has none where the store failed.
    pub record VideoCollection : Type 0 where
      pub slug : Text
      pub videos : List MediaItem

    videos_or_none : Outcome Text (List MediaItem) → List MediaItem
    videos_or_none (returned items) = items
    videos_or_none (thrown e) = []

    load_videos : ℕ → R2Config → List Category → Option (List VideoCollection)
    load_videos fuel config [] = some []
    load_videos fuel config (c ∷ cs) = elim (list_category_videos fuel config c) [
      | none ↦ none
      | some found ↦ elim (load_videos fuel config cs) [
        | none ↦ none
        | some rest ↦ some (record { slug = c.slug; videos = videos_or_none found } ∷ rest)
      ]
    ]

    -- `loadR2VideoCollections()`
    pub load_r2_video_collections : ℕ → Option R2Config → Option (List VideoCollection)
    load_r2_video_collections fuel none =
        some (map (λ c. record { slug = c.slug; videos = [] }) media_categories)
    load_r2_video_collections fuel (some config) = load_videos fuel config media_categories
