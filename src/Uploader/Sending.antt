-- ===== src/Uploader/Sending.antt =====
-- How many copies the uploader sends.
use save_the_date.Base.{
  ℕ, suc, ◌+◌, ◌≤◌, ◌≡◌, refl, ap, not, none, List, [], ◌∷◌, Text, count, length, update_where,
  Outcome, returned, thrown, arith,
}
use save_the_date.Uploader.Settling.{of_id}
use save_the_date.Uploader.Images.{Browser, optimize_image}
use save_the_date.Uploader.Queue.{
  processing, UploadItem, Page, is_complete, update_item, fail_item, show_progress, settle_item,
  send_item, with_copy, upload_item, tallied, work_on, upload_all,
}

-- How many requests the loop makes
sent-show_progress : (id : Text) (ns : List ℕ) (p : Page) → (show_progress id ns p).sent ≡ p.sent
unfolding show_progress update_item
sent-show_progress id [] p = refl
sent-show_progress id (n ∷ ns) p = sent-show_progress id ns _

sent-settle_item :
    (id : Text) (r : Outcome Text (Unit {0})) (p : Page) → (settle_item id r p).0.sent ≡ p.sent
unfolding settle_item fail_item update_item
sent-settle_item id (returned u) p = refl
sent-settle_item id (thrown e) p = refl

sent-with_copy :
    (browser : Browser) (item : UploadItem) (r : Outcome Text ℕ) (p : Page)
    → length (with_copy browser item r p).0.sent ≤ suc (length p.sent)
unfolding with_copy fail_item update_item send_item
sent-with_copy browser item (thrown e) p = omega arith
sent-with_copy browser item (returned bytes) p = omega (
  arith,
  ap length (sent-settle_item item.id _ (show_progress item.id _ _)),
  ap length (sent-show_progress item.id _ _),
)

abbrev pub todo : List UploadItem → ℕ
todo is = count (λ (i : UploadItem). not (is_complete i.status)) is

sent-work_on :
    (browser : Browser) (r : UploadItem) (s : Page × ℕ)
    → length (work_on browser r s).0.sent ≤ length s.0.sent + todo (r ∷ [])
unfolding work_on tallied upload_item update_item
sent-work_on browser r s = ground (
  arith,
  sent-with_copy browser r (optimize_image browser r.file) (record s.0 {
    items =
        update_where (of_id r.id)
          (λ i. record i { status = processing; progress = 0; message = none }) s.0.items;
  }),
)

pub sent-upload_all :
    (browser : Browser) (rest : List UploadItem) (s : Page × ℕ)
    → length (upload_all browser rest s).0.sent ≤ length s.0.sent + todo rest
unfolding upload_all
sent-upload_all browser [] s = omega arith
sent-upload_all browser (r ∷ rest) s =
    ground (arith, sent-work_on browser r s, sent-upload_all browser rest (work_on browser r s))
