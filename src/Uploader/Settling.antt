-- ===== src/Uploader/Settling.antt =====
-- What a round of the uploader does to the item that it works on, and to the others.
use save_the_date.Base.{
  ℕ, ◌≡◌, refl, ap, ◌∙◌, Bool, true, ◌||◌, some, List, [], ◌∷◌, Text, update_where, same, Outcome,
  returned, thrown, arith,
}
use save_the_date.Uploader.Images.{Browser, optimize_image}
use save_the_date.Uploader.Queue.{
  complete, error, UploadItem, Page, is_complete, is_failed, update_item, fail_item, show_progress,
  settle_item, send_item, with_copy, upload_item,
}

-- The item is uploaded or has failed.
abbrev pub is_settled : UploadItem → Bool
is_settled i = is_complete i.status || is_failed i.status

abbrev pub of_id : Text → UploadItem → Bool
of_id id i = same i.id id

-- The items with the id were changed, and nothing else.
abbrev pub Touched : Text → List UploadItem → List UploadItem → Type 0
Touched id is js =
    (g : UploadItem → UploadItem) × ((i : UploadItem) → (g i).id ≡ i.id)
    × (js ≡ update_where (of_id id) g is)

-- The items with the id were settled, and nothing else was changed.
abbrev pub Settled : Text → List UploadItem → List UploadItem → Type 0
Settled id is js =
    (g : UploadItem → UploadItem) × ((i : UploadItem)
      → ((g i).id ≡ i.id) × (is_settled (g i) ≡ true))
    × (js ≡ update_where (of_id id) g is)

update_twice :
    (id : Text) (f g : UploadItem → UploadItem) (is : List UploadItem)
    → ((i : UploadItem) → (f i).id ≡ i.id)
    → update_where (of_id id) g (update_where (of_id id) f is)
      ≡ update_where (of_id id) (λ i. g (f i)) is
update_twice id f g [] keep = refl
update_twice id f g (i ∷ is) keep = ground (arith, keep i, update_twice id f g is keep)

Touched-then :
    (id : Text) (is js : List UploadItem) (g : UploadItem → UploadItem)
    → ((i : UploadItem) → (g i).id ≡ i.id)
    → Touched id is js
    → Touched id is (update_where (of_id id) g js)
Touched-then id is js g same_id (f, keep, e) = (
  λ i. g (f i),
  λ i. same_id (f i) ∙ keep i,
  ap (update_where (of_id id) g) e ∙ update_twice id f g is keep,
)

Settled-then :
    (id : Text) (is js : List UploadItem) (g : UploadItem → UploadItem)
    → ((i : UploadItem) → ((g i).id ≡ i.id) × (is_settled (g i) ≡ true))
    → Touched id is js
    → Settled id is (update_where (of_id id) g js)
Settled-then id is js g settles (f, keep, e) = (
  λ i. g (f i),
  λ i. ((settles (f i)).0 ∙ keep i, (settles (f i)).1),
  ap (update_where (of_id id) g) e ∙ update_twice id f g is keep,
)

Touched-show_progress :
    (id : Text) (ns : List ℕ) (is : List UploadItem) (p : Page)
    → Touched id is p.items
    → Touched id is (show_progress id ns p).items
unfolding show_progress update_item
Touched-show_progress id [] is p t = t
Touched-show_progress id (n ∷ ns) is p t =
    Touched-show_progress id ns is
      (record p { items = update_where (of_id id) (λ i. record i { progress = n }) p.items })
      (Touched-then id is p.items (λ i. record i { progress = n }) (λ i. refl) t)

Settled-settle_item :
    (id : Text) (r : Outcome Text (Unit {0})) (is : List UploadItem) (p : Page)
    → Touched id is p.items
    → Settled id is (settle_item id r p).0.items
unfolding settle_item fail_item update_item
Settled-settle_item id (returned u) is p t =
    Settled-then id is p.items (λ i. record i { status = complete; progress = 100 })
      (λ i. (refl, refl)) t
Settled-settle_item id (thrown e) is p t =
    Settled-then id is p.items (λ i. record i { status = error; message = some e })
      (λ i. (refl, refl)) t

Settled-with_copy :
    (browser : Browser) (item : UploadItem) (r : Outcome Text ℕ) (is : List UploadItem) (p : Page)
    → Touched item.id is p.items
    → Settled item.id is (with_copy browser item r p).0.items
unfolding with_copy fail_item update_item send_item
Settled-with_copy browser item (thrown e) is p t =
    Settled-then item.id is p.items (λ i. record i { status = error; message = some e })
      (λ i. (refl, refl)) t
Settled-with_copy browser item (returned bytes) is p t =
    Settled-settle_item item.id _ is _
      (Touched-show_progress item.id _ is _ (Touched-then item.id is p.items _ (λ i. refl) t))

pub Settled-upload_item :
    (browser : Browser) (item : UploadItem) (p : Page)
    → Settled item.id p.items (upload_item browser item p).0.items
unfolding upload_item update_item
Settled-upload_item browser item p =
    Settled-with_copy browser item (optimize_image browser item.file) p.items _
      (_, (λ i. refl), refl)
