-- ===== src/Media/Upload/Laws.antt =====
-- What the signature of an upload allows.
use save_the_date.Base.{
  ℕ, ◌/◌, ◌≡◌, Bool, true, false, Option, none, some, [], ◌∷◌, ◌++◌, Text, codes,
}
use save_the_date.Auth.Session.{super_admin, AuthSession, can_access_role}
use save_the_date.Mail.Message.{to_string}
use save_the_date.Media.Categories.{Category}
use save_the_date.Media.Cloudinary.{CloudinaryConfig}
use save_the_date.Media.Upload.{
  UploadResponse, upload_unauthorized, select_category, not_configured, upload_signed,
}

-- What `localeCompare` says of the names of the parameters, which are lower case letters and `_`
abbrev pub IsAlphabetical : (Text → Text → Bool) → Type 0
IsAlphabetical key_first =
    (key_first (codes "timestamp") (codes "asset_folder") ≡ false)
    × (key_first (codes "unique_filename") (codes "timestamp") ≡ false)
    × (key_first (codes "use_filename") (codes "unique_filename") ≡ false)

-- The text that Cloudinary computes the signature of, before the secret
abbrev signed_text : Text → ℕ → Text
signed_text folder seconds =
    codes "asset_folder="
    ++ (folder
        ++ (codes "&timestamp="
            ++ (to_string seconds ++ codes "&unique_filename=true&use_filename=true")))

-- The folder of a category's photos
abbrev folder_of : Category → Text
folder_of category = codes "wedding/media/" ++ (category.slug ++ codes "/photos")

module _ (sha1 : Text → Text) (key_first : Text → Text → Bool) (now : ℕ) where
  -- What the answer to a request for a signature shows.
  abbrev pub Answers :
      Option CloudinaryConfig → Option AuthSession → Option Text → UploadResponse → Type 0
  Answers config session name upload_unauthorized =
      can_access_role session (super_admin ∷ []) ≡ false
  Answers config session name select_category = can_access_role session (super_admin ∷ []) ≡ true
  Answers config session name not_configured =
      (can_access_role session (super_admin ∷ []) ≡ true) × (config ≡ none)
  Answers config session name (upload_signed cloud key signature p) =
      (can_access_role session (super_admin ∷ []) ≡ true)
      × (c : CloudinaryConfig) × (category : Category) × (config ≡ some c)
      × (name ≡ some category.slug)
      × (category.has_photos ≡ true)
      × (p.asset_folder ≡ folder_of category)
      × (cloud ≡ c.cloud_name)
      × (key ≡ c.api_key)
      × (p.timestamp ≡ now / 1000)
      × (p.unique_filename ≡ codes "true")
      × (p.use_filename ≡ codes "true")
      × (signature ≡ sha1 (signed_text (folder_of category) (now / 1000) ++ c.api_secret))
