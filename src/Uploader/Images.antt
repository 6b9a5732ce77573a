-- ===== src/Uploader/Images.antt =====
-- Making a smaller copy of a picture in the browser, and sending it: `optimizeImage` and
-- `uploadImage`. The decoder, the canvas and the connection are the browser's (Browser). The sizes of
-- the copy are rounded from the exact quotients, which the code takes in floating point.
use save_the_date.Base.{
  ℕ, ◌+◌, ◌*◌, ◌/◌, ◌==◌, Bool, ◌&&◌, Option, none, some, List, [], ◌∷◌, ◌++◌, Text, codes, leb,
  ltb, or_else, if◌then◌else◌, Outcome, returned, thrown,
}
use mathlib.Core.List.{reverse}

-- A file that was chosen
pub record File : Type 0 where
  pub name : Text
  pub webkit_relative_path : Text
  pub last_modified : ℕ
  pub size : ℕ

pub record Canvas : Type 0 where
  pub width : ℕ
  pub height : ℕ

-- How a request to Cloudinary ends: with a status, and the message of the error where the body has
-- one, or with no connection.
pub data UploadReply : Type 0 where
  loaded : ℕ → Option Text → UploadReply
  broken : UploadReply

-- What the browser does with a file: the size of its picture, or why it cannot be read; whether a
-- canvas has a context; the bytes of the JPEG of a canvas at a quality in percent; the progress of
-- a request and how it ends.
pub record Browser : Type 0 where
  pub decode : File → Outcome Text Canvas
  pub has_context : Bool
  pub encode : File → Canvas → ℕ → Option ℕ
  pub send : File → ℕ → List ℕ × UploadReply

abbrev pub max_dimension : ℕ
max_dimension = 3200

abbrev pub max_output_bytes : ℕ
max_output_bytes = 18 * 1024 * 1024

abbrev pub lower_qualities : List ℕ
lower_qualities = 85 ∷ 80 ∷ 75 ∷ []

abbrev pub larger : ℕ → ℕ → ℕ
larger a b = if ltb a b then b else a

-- `Math.max(1, Math.round(side * scale))`, `scale = Math.min(1, MAX_DIMENSION / largest)`
unfoldable pub scaled : ℕ → ℕ → ℕ
scaled largest side =
    if leb largest max_dimension
    then larger 1 side
    else larger 1 ((2 * side * max_dimension + largest) / (2 * largest))

unfoldable pub fitted : Canvas → Canvas
fitted bitmap =
    let largest = larger bitmap.width bitmap.height in
    record { width = scaled largest bitmap.width; height = scaled largest bitmap.height }

unfoldable pub too_large : Text
too_large = codes "The optimized image is still larger than 18 MB."

module _ (browser : Browser) (file : File) (canvas : Canvas) where
  -- `canvasToBlob(canvas, quality)`
  unfoldable pub canvas_to_blob : ℕ → Outcome Text ℕ
  canvas_to_blob quality = elim (browser.encode file canvas quality) [
    | none ↦ thrown (codes "The browser could not create an optimized JPEG.")
    | some bytes ↦ returned bytes
  ]

  -- The loop over the lower qualities
  unfoldable pub lower_quality : List ℕ → Outcome Text ℕ → Outcome Text ℕ
  lower_quality qualities (thrown e) = thrown e
  lower_quality [] (returned bytes) = returned bytes
  lower_quality (q ∷ qualities) (returned bytes) =
      let next = lower_quality qualities (canvas_to_blob q) in
      if leb bytes max_output_bytes then returned bytes else next

unfoldable pub checked_size : Outcome Text ℕ → Outcome Text ℕ
checked_size (thrown e) = thrown e
checked_size (returned bytes) =
    if ltb max_output_bytes bytes then thrown too_large else returned bytes

unfoldable pub draw : Browser → File → Canvas → Outcome Text ℕ
draw browser file bitmap =
    if browser.has_context
    then checked_size (
        lower_quality browser file (fitted bitmap) lower_qualities
          (canvas_to_blob browser file (fitted bitmap) 90))
    else thrown (codes "Your browser does not support image processing.")

-- `optimizeImage(file)`: the bytes of the copy
unfoldable pub optimize_image : Browser → File → Outcome Text ℕ
optimize_image browser file = elim (browser.decode file) [
  | thrown e ↦ thrown e
  | returned bitmap ↦ draw browser file bitmap
]

-- How the promise of `uploadImage` ends
unfoldable pub upload_result : UploadReply → Outcome Text (Unit {0})
upload_result (loaded status message) =
    if leb 200 status && ltb status 300
    then returned tt
    else thrown (or_else message (codes "Cloudinary rejected the upload."))
upload_result broken = thrown (codes "The upload connection failed.")

-- The text, reversed, after its last dot: `none` where there is no dot, or nothing after it.
unfoldable pub after_extension : Text → Option Text
after_extension [] = none
after_extension (c ∷ s) = let rest = after_extension s in if c == 46 then some s else rest

-- `originalName.replace(/\.[^.]+$/, "")`
unfoldable pub without_extension : Text → Text
without_extension name = elim (reverse name) [
  | [] ↦ name
  | c ∷ s ↦
      if c == 46 then name else elim (after_extension s) [ none ↦ name | some rest ↦ reverse rest ]
]

unfoldable pub output_name : Text → Text
output_name name = without_extension name ++ codes ".jpg"
