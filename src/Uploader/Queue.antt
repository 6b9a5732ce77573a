-- ===== src/Uploader/Queue.antt =====
-- The state of the component and its handlers. A response of the server is an argument, with `thrown`
-- for what `fetch` or the body throws. `sent` has the names and sizes of the copies that went to
-- Cloudinary and `revalidated` counts the requests that refresh the gallery.
use save_the_date.Base.{
  ℕ, suc, ◌+◌, ◌==◌, Bool, true, false, ◌&&◌, ◌||◌, Option, none, some, List, [], ◌∷◌, ◌++◌, map,
  Text, codes, filter, count, length, update_where, same, leb, ltb, or_else, or_text, if◌then◌else◌,
  Outcome, returned, thrown,
}
use mathlib.Core.List.{reverse}
use save_the_date.Uploader.Images.{File, Browser, optimize_image, upload_result, output_name}

pub data UploadStatus : Type 0 where
  queued processing uploading complete error : UploadStatus

pub record UploadItem : Type 0 where
  pub id : Text
  pub file : File
  pub status : UploadStatus
  pub progress : ℕ
  pub output_bytes : Option ℕ
  pub message : Option Text

pub record Page : Type 0 where
  pub category : Text
  pub items : List UploadItem
  pub is_uploading : Bool
  pub is_syncing : Bool
  pub sync_message : Text
  pub page_error : Text
  pub sent : List (Text × ℕ)
  pub revalidated : ℕ

abbrev pub is_complete : UploadStatus → Bool
is_complete complete = true
is_complete _ = false

abbrev pub is_failed : UploadStatus → Bool
is_failed error = true
is_failed _ = false

-- `totals`
pub record Totals : Type 0 where
  pub complete : ℕ
  pub failed : ℕ

unfoldable pub totals : List UploadItem → Totals
totals items = record {
  complete = count (λ (i : UploadItem). is_complete i.status) items;
  failed = count (λ (i : UploadItem). is_failed i.status) items;
}

abbrev lower_ascii : ℕ → ℕ
lower_ascii c = if leb 65 c && leb c 90 then c + 32 else c

-- Whether a text begins with the first one
unfoldable pub starts_with : Text → Text → Bool
starts_with [] s = true
starts_with (c ∷ prefix) [] = false
starts_with (c ∷ prefix) (d ∷ s) = c == lower_ascii d && starts_with prefix s

-- `/\.(jpe?g|png|webp)$/i.test(name)`
unfoldable pub is_supported : Text → Bool
is_supported name =
    let ends = λ (extension : Text). starts_with (reverse extension) (reverse name) in
    ends (codes ".jpg") || ends (codes ".jpeg") || ends (codes ".png") || ends (codes ".webp")

module _ (decimal : ℕ → Text) where
  unfoldable pub new_item : File → UploadItem
  new_item file = record {
    id =
        or_text file.webkit_relative_path file.name
        ++ codes "-"
        ++ decimal file.last_modified
        ++ codes "-"
        ++ decimal file.size;
    file = file;
    status = queued;
    progress = 0;
    output_bytes = none;
    message = none;
  }

  -- `handleFiles(files)`
  unfoldable pub handle_files : Option (List File) → Page → Page
  handle_files none p = p
  handle_files (some files) p =
      let selected = map new_item (filter (λ (f : File). is_supported f.name) files) in
      record p {
        items = selected;
        page_error =
            if length selected == 0
            then codes "No supported JPEG, PNG, or WebP images were found in that folder."
            else [];
      }

-- `updateItem(id, patch)`
unfoldable pub update_item : Text → (UploadItem → UploadItem) → Page → Page
update_item id patch p = record p {
  items = update_where (λ (i : UploadItem). same i.id id) patch p.items;
}

unfoldable pub fail_item : Text → Text → Page → Page
fail_item id e p = update_item id (λ i. record i { status = error; message = some e }) p

-- The progress events of a request
unfoldable pub show_progress : Text → List ℕ → Page → Page
show_progress id [] p = p
show_progress id (n ∷ ns) p =
    show_progress id ns (update_item id (λ i. record i { progress = n }) p)

-- What follows the request: the page, and whether the picture was uploaded
unfoldable pub settle_item : Text → Outcome Text (Unit {0}) → Page → Page × Bool
settle_item id (returned u) p =
    (update_item id (λ i. record i { status = complete; progress = 100 }) p, true)
settle_item id (thrown e) p = (fail_item id e p, false)

unfoldable pub send_item : Browser → UploadItem → ℕ → Page → Page × Bool
send_item browser item bytes p =
    let (ns, reply) = browser.send item.file bytes in
    let started =
      update_item item.id
        (λ i. record i { status = uploading; output_bytes = some bytes; progress = 0 }) p in
    let requested = record started { sent = (output_name item.file.name, bytes) ∷ started.sent } in
    settle_item item.id (upload_result reply) (show_progress item.id ns requested)

unfoldable pub with_copy : Browser → UploadItem → Outcome Text ℕ → Page → Page × Bool
with_copy browser item (thrown e) p = (fail_item item.id e p, false)
with_copy browser item (returned bytes) p = send_item browser item bytes p

-- The body of the loop over the items
unfoldable pub upload_item : Browser → UploadItem → Page → Page × Bool
upload_item browser item p =
    with_copy browser item (optimize_image browser item.file)
      (update_item item.id (λ i. record i { status = processing; progress = 0; message = none }) p)

unfoldable pub tallied : ℕ → Page × Bool → Page × ℕ
tallied n (p, uploaded) = (p, if uploaded then suc n else n)

-- A round of the loop, with the number of uploaded pictures
unfoldable pub work_on : Browser → UploadItem → Page × ℕ → Page × ℕ
work_on browser item s =
    if is_complete item.status then s else tallied s.1 (upload_item browser item s.0)

unfoldable pub upload_all : Browser → List UploadItem → Page × ℕ → Page × ℕ
upload_all browser [] s = s
upload_all browser (item ∷ items) s = upload_all browser items (work_on browser item s)

-- The answer to `/api/media/revalidate`: whether it is fine, or what was thrown
unfoldable pub refreshed : Outcome Text Bool → Page → Page
refreshed (returned true) p = p
refreshed (returned false) p = record p {
  page_error =
      codes
        "Images were uploaded, but the public gallery cache could not be refreshed. Redeploy the site to show them.";
}
refreshed (thrown e) p = record p { page_error = e }

unfoldable pub refresh : Outcome Text Bool → Page × ℕ → Page
refresh reply (p, n) =
    if ltb 0 n then refreshed reply (record p { revalidated = suc p.revalidated }) else p

-- The answer to the request for a signature: it is given, it is refused, or something was thrown.
pub data Signed : Type 0 where
  signed : Signed
  unsigned : Option Text → Signed
  unanswered : Text → Signed

unfoldable pub upload_signed : Browser → Signed → Outcome Text Bool → Page → Page
upload_signed browser (unanswered e) reply p = record p { page_error = e }
upload_signed browser (unsigned e) reply p = record p {
  page_error = or_else e (codes "Unable to authorize the Cloudinary upload.");
}
upload_signed browser signed reply p = refresh reply (upload_all browser p.items (p, 0))

-- `handleUpload()`
unfoldable pub handle_upload : Browser → Signed → Outcome Text Bool → Page → Page
handle_upload browser answer reply p =
    if length p.items == 0 || p.is_uploading
    then p
    else record (upload_signed browser answer reply
        (record p { is_uploading = true; page_error = [] })) { is_uploading = false }

-- `handleSync()`, where the request is answered
unfoldable pub handle_sync : Bool → Page → Page
handle_sync ok p = record p {
  is_syncing = false;
  sync_message =
      if ok
      then codes "The public gallery will load the latest Cloudinary and R2 files."
      else codes "Unable to refresh the public gallery cache.";
  revalidated = suc p.revalidated;
}
