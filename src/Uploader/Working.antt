-- ===== src/Uploader/Working.antt =====
-- How the queue of the uploader is worked off.
use save_the_date.Base.{
  ℕ, ◌+◌, ◌≤◌, ◌==◌, ◌≡◌, refl, sym, subst, ap, Bool, true, false, not, ◌&&◌, ◌||◌, List, [], ◌∷◌,
  Text, any, length, update_where, same, same_refl, same→eq, All, Bool-cases, inl, inr,
  if◌then◌else◌, Outcome, returned, thrown, arith,
}
use save_the_date.Uploader.Images.{Browser}
use save_the_date.Uploader.Queue.{
  UploadItem, Page, is_complete, upload_item, tallied, work_on, upload_all, refreshed, refresh,
  signed, upload_signed, handle_upload,
}
use save_the_date.Uploader.Settling.{is_settled, of_id, Settled-upload_item}
use save_the_date.Uploader.Sending.{todo, sent-upload_all}

-- The item is settled, or the loop will come to one with its id.
abbrev pending : List UploadItem → Text → Bool
pending rest id = any (λ (r : UploadItem). not (is_complete r.status) && same r.id id) rest

abbrev Worked : List UploadItem → List UploadItem → Type 0
Worked rest items = All (λ i. is_settled i || pending rest i.id ≡ true) items

same_no : (s t : Text) → same s t ≡ false → same t s ≡ false
same_no s t h = elim (Bool-cases (same t s)) [
  | inl eq ↦ cc (h, subst (λ x. same x t ≡ true) (same→eq t s eq) (same_refl t))
  | inr ne ↦ ne
]

-- An item that was worked on is settled.
Worked-update :
    (r : UploadItem) (rest : List UploadItem) (g : UploadItem → UploadItem) (is : List UploadItem)
    → ((i : UploadItem) → ((g i).id ≡ i.id) × (is_settled (g i) ≡ true))
    → Worked (r ∷ rest) is
    → Worked rest (update_where (of_id r.id) g is)
Worked-update r rest g [] settles w = tt
Worked-update r rest g (i ∷ is) settles w = elim (Bool-cases (same i.id r.id)) [
  | inl hit ↦ rw hit (ground (arith, (settles i).1), Worked-update r rest g is settles w.1)
  | inr miss ↦
      rw miss (ground (arith, w.0, same_no i.id r.id miss), Worked-update r rest g is settles w.1)
]

Worked-skip :
    (r : UploadItem) (rest is : List UploadItem)
    → is_complete r.status ≡ true
    → Worked (r ∷ rest) is
    → Worked rest is
Worked-skip r rest [] done w = tt
Worked-skip r rest (i ∷ is) done w = (ground (arith, w.0, done), Worked-skip r rest is done w.1)

Worked-work_on :
    (browser : Browser) (r : UploadItem) (rest : List UploadItem) (s : Page × ℕ)
    → Worked (r ∷ rest) s.0.items
    → Worked rest (work_on browser r s).0.items
unfolding work_on tallied
Worked-work_on browser r rest s w = elim (Bool-cases (is_complete r.status)) [
  | inl done ↦
      subst
        (λ (b : Bool).
          Worked rest (if b then s else tallied s.1 (upload_item browser r s.0)).0.items)
        (sym done) (Worked-skip r rest s.0.items done w)
  | inr todo ↦
      let (g, settles, e) = Settled-upload_item browser r s.0 in
      subst
        (λ (b : Bool).
          Worked rest (if b then s else tallied s.1 (upload_item browser r s.0)).0.items)
        (sym todo) (subst (Worked rest) (sym e) (Worked-update r rest g s.0.items settles w))
]

Worked-upload_all :
    (browser : Browser) (rest : List UploadItem) (s : Page × ℕ)
    → Worked rest s.0.items
    → Worked [] (upload_all browser rest s).0.items
unfolding upload_all
Worked-upload_all browser [] s w = w
Worked-upload_all browser (r ∷ rest) s w =
    Worked-upload_all browser rest (work_on browser r s) (Worked-work_on browser r rest s w)

Worked-more : (r : UploadItem) (rest is : List UploadItem) → Worked rest is → Worked (r ∷ rest) is
Worked-more r rest [] w = tt
Worked-more r rest (i ∷ is) w = (ground (arith, w.0), Worked-more r rest is w.1)

-- At the start every item is settled or still to come.
Worked-start : (is : List UploadItem) → Worked is is
Worked-start [] = tt
Worked-start (i ∷ is) = (ground (arith, same_refl i.id), Worked-more i is is (Worked-start is))

refresh-items :
    (reply : Outcome Text Bool) (s : Page × ℕ)
    → ((refresh reply s).items ≡ s.0.items) × ((refresh reply s).sent ≡ s.0.sent)
unfolding refresh refreshed
refresh-items (returned true) s = ground arith
refresh-items (returned false) s = ground arith
refresh-items (thrown e) s = ground arith

settled-All : (is : List UploadItem) → Worked [] is → All (λ i. is_settled i ≡ true) is
settled-All [] w = tt
settled-All (i ∷ is) w = (ground (arith, w.0), settled-All is w.1)

none_waiting : (is : List UploadItem) → length is == 0 ≡ true → All (λ i. is_settled i ≡ true) is
none_waiting [] h = tt
none_waiting (i ∷ is) h = absurd (ground (arith, h))

abbrev Ended : Page → Page → Type 0
Ended p after =
    All (λ i. is_settled i ≡ true) after.items
    × (length after.sent ≤ length p.sent + todo p.items)
    × (after.is_uploading ≡ false)

abbrev begun : Page → Page
begun p = record p { is_uploading = true; page_error = [] }

Ended-refresh :
    (browser : Browser) (reply : Outcome Text Bool) (p : Page)
    → Ended p
        (record (refresh reply (upload_all browser p.items (begun p, 0))) { is_uploading = false })
Ended-refresh browser reply p =
    let s = upload_all browser p.items (begun p, 0) in
    let (same_items, same_sent) = refresh-items reply s in
    (
      subst (All (λ i. is_settled i ≡ true)) (sym same_items) (
          settled-All s.0.items
            (Worked-upload_all browser p.items (begun p, 0) (Worked-start p.items))),
      omega (arith, ap length same_sent, sent-upload_all browser p.items (begun p, 0)),
      refl,
    )

-- An upload that is begun with a signature leaves no item waiting: each is uploaded or has failed,
-- whatever the browser, Cloudinary and the request that refreshes the gallery do. It sends at most
-- one copy for each item that was not complete before, and the page can be used again.
pub handle_upload-settled :
    (browser : Browser) (reply : Outcome Text Bool) (p : Page)
    → p.is_uploading ≡ false
    → let after = handle_upload browser signed reply p in
      All (λ i. is_settled i ≡ true) after.items
      × (length after.sent ≤ length p.sent + todo p.items)
      × (after.is_uploading ≡ false)
unfolding handle_upload upload_signed
handle_upload-settled browser reply p idle =
    let ended = record (refresh reply (upload_all browser p.items (begun p, 0))) {
      is_uploading = false;
    } in
    elim (Bool-cases (length p.items == 0 || p.is_uploading)) [
      | inl stays ↦
          subst (λ (b : Bool). Ended p (if b then p else ended)) (sym stays)
            (none_waiting p.items (ground (arith, stays, idle)), omega arith, idle)
      | inr goes ↦
          subst (λ (b : Bool). Ended p (if b then p else ended)) (sym goes)
            (Ended-refresh browser reply p)
    ]
