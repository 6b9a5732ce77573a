-- ===== src/Media/Upload.antt =====
-- Uploads of pictures: apps/web/app/api/media/cloudinary-signature/route.ts and
-- apps/web/app/api/media/revalidate/route.ts. `sha1` gives the digest in hexadecimal, and
-- `key_first` is the order of `localeCompare` on the names of the parameters.
pub mod Laws
use save_the_date.Base.{
  ℕ, ◌/◌, Bool, true, false, ◌∷◌, Option, none, some, List, [], ◌++◌, map, Text, codes, is_empty,
  if◌then◌else◌,
}
use save_the_date.Auth.Session.{super_admin, AuthSession, can_access_role}
use save_the_date.Mail.Message.{to_string, join}
use save_the_date.Media.Categories.{Category, get_media_category, get_cloudinary_image_folder}
use save_the_date.Media.Cloudinary.{CloudinaryConfig}

-- The parameters that are signed.
pub record SignedParameters : Type 0 where
  pub asset_folder : Text
  pub timestamp : ℕ
  pub unique_filename : Text
  pub use_filename : Text

pub data UploadResponse : Type 0 where
  upload_unauthorized select_category not_configured : UploadResponse
  upload_signed : Text → Text → Text → SignedParameters → UploadResponse

pub record Entry : Type 0 where
  pub key : Text
  pub value : Text

-- `Object.entries(signedParameters)`
entries : SignedParameters → List Entry
entries p =
    record { key = codes "asset_folder"; value = p.asset_folder }
    ∷ (record { key = codes "timestamp"; value = to_string p.timestamp }
        ∷ (record { key = codes "unique_filename"; value = p.unique_filename }
            ∷ (record { key = codes "use_filename"; value = p.use_filename } ∷ [])))

module _ (sha1 : Text → Text) (key_first : Text → Text → Bool) (now : ℕ) where
  insert_entry : Entry → List Entry → List Entry
  insert_entry e [] = e ∷ []
  insert_entry e (f ∷ fs) = if key_first f.key e.key then f ∷ insert_entry e fs else e ∷ (f ∷ fs)

  sort_entries : List Entry → List Entry
  sort_entries [] = []
  sort_entries (e ∷ es) = insert_entry e (sort_entries es)

  -- `parameterString`
  pub parameter_string : SignedParameters → Text
  parameter_string p =
      join (codes "&") (map (λ e. e.key ++ (codes "=" ++ e.value)) (sort_entries (entries p)))

  sign_upload : CloudinaryConfig → Category → UploadResponse
  sign_upload config category =
      let p : SignedParameters = record {
        asset_folder = get_cloudinary_image_folder category.slug;
        timestamp = now / 1000;
        unique_filename = codes "true";
        use_filename = codes "true";
      } in
      upload_signed config.cloud_name config.api_key
        (sha1 (parameter_string p ++ config.api_secret)) p

  pub for_category : Option CloudinaryConfig → Option Category → UploadResponse
  for_category config none = select_category
  for_category none (some category) =
      if category.has_photos then not_configured else select_category
  for_category (some config) (some category) =
      if category.has_photos then sign_upload config category else select_category

  -- `body?.category ? getMediaCategory(body.category) : undefined`
  pub category_of : Option Text → Option Category
  category_of none = none
  category_of (some []) = none
  category_of (some (c ∷ s)) = get_media_category (c ∷ s)

  -- `POST` of media/cloudinary-signature
  unfoldable pub post_cloudinary_signature :
      Option CloudinaryConfig → Option AuthSession → Option Text → UploadResponse
  post_cloudinary_signature config session category =
      if can_access_role session (super_admin ∷ [])
      then for_category config (category_of category)
      else upload_unauthorized

-- `POST` of media/revalidate: whether the request is allowed, with the tags and the paths that are
-- then read anew
unfoldable pub post_revalidate : Option AuthSession → Option (List Text)
post_revalidate session =
    if can_access_role session (super_admin ∷ [])
    then some (codes "cloudinary-media" ∷ (codes "r2-media" ∷ (codes "/media" ∷ [])))
    else none
