-- ===== src/Media/Cloudinary/Laws.antt =====
-- Every picture of a folder is listed, and a folder that cannot be read leaves the others alone.
use save_the_date.Base.{
  ℕ, suc, ◌≤◌, ◌≡◌, arith, Option, refl, none, some, List, [], ◌∷◌, map, Text, length, All, Outcome,
  returned, thrown,
}
use save_the_date.Media.Categories.{Category, media_categories, MediaItem, MediaCollection}
use save_the_date.Media.Paging.{Page, collect}
use save_the_date.Media.Paging.Laws.{HasPages, joined, collect-joined}
use save_the_date.Media.Cloudinary.{
  CloudinaryConfig, CloudinaryResource, CloudinarySearchResponse, Search, map_resource, mapped,
  search_page, search_folder, collection, items_or_none, load_each,
  load_cloudinary_media_collections,
}

collect-thrown :
    (fetch : Option Text → Outcome Text (Page CloudinaryResource)) (left : ℕ) (cursor : Option Text)
    (e : Text)
    → fetch cursor ≡ thrown e
    → collect fetch (suc left) cursor [] ≡ some (thrown e)
unfolding collect
collect-thrown fetch left cursor e h = ground (arith, h)

-- A search whose first page is refused ends with that error.
pub search_folder-thrown :
    (year_of : Text → Text) (service : Search → CloudinarySearchResponse) (left : ℕ)
    (category : Category) (e : Text)
    → search_page year_of service category none ≡ thrown e
    → search_folder year_of service (suc left) category ≡ some (thrown e)
unfolding search_folder mapped
search_folder-thrown year_of service left category e refused =
    rw (search_folder, collect-thrown (search_page year_of service category) left none e refused)
      refl

module _ (year_of : Text → Text) (service : Search → CloudinarySearchResponse) (fuel : ℕ) where
  -- Where the service has a folder in pages and there are as many rounds as pages, the search ends
  -- with the pictures of every page, once each and in order, mapped to items of the category.
  pub search_folder-joined :
      (category : Category) (pages : List (List CloudinaryResource))
      → HasPages (search_page year_of service category) none pages
      → length pages ≤ fuel
      → search_folder year_of service fuel category
        ≡ some (
            returned
              (map (map_resource year_of category.title category.description) (joined pages)))
  unfolding search_folder mapped
  search_folder-joined category pages h le =
      rw
        (
          search_folder,
          collect-joined (search_page year_of service category) pages fuel none [] h le,
        )
        refl

  -- The pictures that a search found, if it did not fail
  abbrev Listed : Outcome Text (List MediaItem) → List MediaItem → Type 0
  Listed (returned found) items = items ≡ found
  Listed (thrown e) items = items ≡ []

  -- The collection is that of the category, with the pictures of its search and no videos.
  abbrev pub Shows : Outcome Text (List MediaItem) → Category → MediaCollection → Type 0
  Shows answer c shown =
      (shown.slug ≡ c.slug)
      × (shown.title ≡ c.title)
      × (shown.description ≡ c.description)
      × (shown.has_videos ≡ c.has_videos)
      × (shown.videos ≡ [])
      × Listed answer shown.items

  -- One collection for each category, in order
  abbrev pub ShowsEach :
      (Category → Outcome Text (List MediaItem)) → List Category → List MediaCollection → Type 0
  ShowsEach answers [] [] = Unit
  ShowsEach answers (c ∷ cs) (shown ∷ rest) = Shows (answers c) c shown × ShowsEach answers cs rest
  ShowsEach answers _ _ = ⊥

  collection-Shows :
      (c : Category) (answer : Outcome Text (List MediaItem))
      → Shows answer c (collection year_of service c (items_or_none year_of service answer))
  unfolding collection items_or_none
  collection-Shows c (returned items) = (refl, refl, refl, refl, refl, refl)
  collection-Shows c (thrown e) = (refl, refl, refl, refl, refl, refl)

  each-ShowsEach :
      (answers : Category → Outcome Text (List MediaItem)) (cs : List Category)
      → All (λ c. search_folder year_of service fuel c ≡ some (answers c)) cs
      → (shown : List MediaCollection) × (load_each year_of service fuel cs ≡ some shown)
        × ShowsEach answers cs shown
  unfolding load_each
  each-ShowsEach answers [] h = ([], refl, tt)
  each-ShowsEach answers (c ∷ cs) h =
      let (rest, e, shows) = each-ShowsEach answers cs h.1 in
      (
        collection year_of service c (items_or_none year_of service (answers c)) ∷ rest,
        rw (load_each, h.0, e) refl,
        (collection-Shows c (answers c), shows),
      )

  -- Where the search of every category ends, there is one collection for every category, in order,
  -- with its names, without videos, and with the pictures of its own search, or without pictures
  -- where that search failed.
  pub load_cloudinary_media_collections-ShowsEach :
      (config : CloudinaryConfig) (answers : Category → Outcome Text (List MediaItem))
      → All (λ c. search_folder year_of service fuel c ≡ some (answers c)) media_categories
      → (shown : List MediaCollection) × (load_cloudinary_media_collections year_of service fuel
            (some config)
          ≡ some shown)
        × ShowsEach answers media_categories shown
  unfolding load_cloudinary_media_collections
  load_cloudinary_media_collections-ShowsEach config answers h =
      each-ShowsEach answers media_categories h
