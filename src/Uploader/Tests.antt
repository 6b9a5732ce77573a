-- ===== src/Uploader/Tests.antt =====
-- Two pictures in a browser that makes their copies a quarter of a megabyte for each percent.
use save_the_date.Base.{
  ◌*◌, ◌≤◌, ◌≡◌, refl, true, false, none, some, [], ◌∷◌, Text, codes, length, All, returned,
}
use save_the_date.Uploader.Images.{File, Canvas, Browser, loaded, fitted, optimize_image}
use save_the_date.Uploader.Queue.{UploadItem, queued, Page, signed, handle_upload}
use save_the_date.Uploader.Laws.{optimize_image-first_fit}
use save_the_date.Uploader.Settling.{is_settled}
use save_the_date.Uploader.Working.{handle_upload-settled}

abbrev file : Text → File
file name = record { name = name; webkit_relative_path = []; last_modified = 7; size = 30000000 }

abbrev bitmap : Canvas
bitmap = record { width = 6000; height = 4000 }

abbrev browser : Browser
browser = record {
  decode = λ f. returned bitmap;
  has_context = true;
  encode = λ f canvas quality. some (quality * 250000);
  send = λ f bytes. (50 ∷ 100 ∷ [], loaded 200 none);
}

optimize_image-first_fit_example :
    (optimize_image browser (file (codes "a.png")) ≡ returned 18750000)
    × (1 ≤ (fitted bitmap).width)
    × ((fitted bitmap).width ≤ 3200)
    × (1 ≤ (fitted bitmap).height)
    × ((fitted bitmap).height ≤ 3200)
optimize_image-first_fit_example =
    optimize_image-first_fit browser (file (codes "a.png")) bitmap (λ quality. quality * 250000)
      refl refl (λ quality. refl)

abbrev item : Text → UploadItem
item name = record {
  id = name;
  file = file name;
  status = queued;
  progress = 0;
  output_bytes = none;
  message = none;
}

abbrev page : Page
page = record {
  category = codes "ceremony";
  items = item (codes "a.png") ∷ item (codes "b.png") ∷ [];
  is_uploading = false;
  is_syncing = false;
  sync_message = [];
  page_error = [];
  sent = [];
  revalidated = 0;
}

handle_upload-settled_example :
    let after = handle_upload browser signed (returned true) page in
    All (λ i. is_settled i ≡ true) after.items
    × (length after.sent ≤ 2)
    × (after.is_uploading ≡ false)
handle_upload-settled_example = handle_upload-settled browser (returned true) page refl
