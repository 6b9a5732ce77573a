-- ===== src/Mail/Batches/Laws.antt =====
-- Chunks hold every pass once and in order, and the result of a batched delivery names every pass
-- once, as sent or as failed.
use save_the_date.Base.{
  ℕ, zero, suc, ◌+◌, ◌≤◌, ◌<◌, ◌≡◌, refl, ap, List, [], ◌∷◌, ◌++◌, map, arith, Text, length, drop,
  take-append-drop, length-take, length-drop, count, count-append, All, Outcome, returned, thrown,
  ◌==◌,
}
use save_the_date.HallPasses.Model.{HallPass}
use save_the_date.Mail.Batches.{
  Provider, chunks, chunk_passes, BatchResult, record_batch, batch_label, send_pass_pdf_email,
  send_batches, send_pass_pdf_emails_batched,
}

-- The chunks, joined again.
abbrev pub joined {ℓ} : {A : Type ℓ} → List (List A) → List A
joined [] = []
joined (c ∷ cs) = c ++ joined cs

module _ {ℓ} {A : Type ℓ} where
  joined-chunks :
      (fuel size : ℕ) (items : List A)
      → length items ≤ fuel
      → joined (chunks fuel (suc size) items) ≡ items
  unfolding chunks
  joined-chunks zero size [] h = refl
  joined-chunks zero size (x ∷ xs) h = absurd (omega arith)
  joined-chunks (suc fuel) size [] h = refl
  joined-chunks (suc fuel) size (x ∷ xs) h =
      rw (joined-chunks fuel size (drop size xs) (omega (arith, length-drop size xs)))
        (take-append-drop (suc size) (x ∷ xs))

  chunks-sizes :
      (fuel size : ℕ) (items : List A)
      → All (λ c. (0 < length c) × (length c ≤ suc size)) (chunks fuel (suc size) items)
  unfolding chunks
  chunks-sizes zero size items = tt
  chunks-sizes (suc fuel) size [] = tt
  chunks-sizes (suc fuel) size (x ∷ xs) =
      ((omega arith, omega (arith, length-take size xs)), chunks-sizes fuel size (drop size xs))

  -- For a positive size the chunks, joined, are the items in their order, and no chunk is empty or
  -- larger than the size.
  pub chunk_passes-joined :
      (items : List A) (size : ℕ)
      → 0 < size
      → (joined (chunk_passes items size) ≡ items)
        × All (λ c. (0 < length c) × (length c ≤ size)) (chunk_passes items size)
  unfolding chunk_passes
  chunk_passes-joined items zero h = absurd (omega arith)
  chunk_passes-joined items (suc size) h = (
    joined-chunks (length items) size items (omega arith),
    chunks-sizes (length items) size items,
  )

-- How often an id stands in a list.
abbrev pub times : ℕ → List ℕ → ℕ
times i = count (λ j. j == i)

times-map-append :
    (i : ℕ) (ps qs : List HallPass)
    → times i (map HallPass.id (ps ++ qs))
      ≡ times i (map HallPass.id ps) + times i (map HallPass.id qs)
times-map-append i [] qs = omega arith
times-map-append i (p ∷ ps) qs = ground (arith, times-map-append i ps qs)

-- How often an id is named by a result.
abbrev pub named : ℕ → BatchResult → ℕ
named i r = times i r.sent_pass_ids + times i r.failed_pass_ids

named-record_batch :
    (i index : ℕ) (batch : List HallPass) (o : Outcome Text (Unit {0})) (r : BatchResult)
    → named i (record_batch index batch o r) ≡ named i r + times i (map HallPass.id batch)
unfolding record_batch
named-record_batch i index batch (returned u) r =
    omega (arith, count-append (λ j. j == i) r.sent_pass_ids (map HallPass.id batch))
named-record_batch i index batch (thrown e) r =
    omega (arith, count-append (λ j. j == i) r.failed_pass_ids (map HallPass.id batch))

module _ (provider : Provider) (recipient message : Text) (i : ℕ) where
  named-send_batches :
      (total index : ℕ) (batches : List (List HallPass)) (r : BatchResult)
      → named i (send_batches provider recipient message total index batches r)
        ≡ named i r + times i (map HallPass.id (joined batches))
  unfolding send_batches
  named-send_batches total index [] r = omega arith
  named-send_batches total index (batch ∷ batches) r =
      let o = send_pass_pdf_email provider batch recipient message (batch_label index total) in
      omega (
        arith,
        named-send_batches total (index + 1) batches (record_batch index batch o r),
        named-record_batch i index batch o r,
        times-map-append i batch (joined batches),
      )

  -- Every pass is named by the result as often as it was given, as sent or as failed.
  pub send_pass_pdf_emails_batched-named :
      (size : ℕ) (passes : List HallPass)
      → 0 < size
      → named i (send_pass_pdf_emails_batched provider recipient message size passes)
        ≡ times i (map HallPass.id passes)
  unfolding send_pass_pdf_emails_batched
  send_pass_pdf_emails_batched-named size passes h =
      let batches = chunk_passes passes size in
      let none_yet : BatchResult = record {
        sent_pass_ids = [];
        failed_pass_ids = [];
        errors = [];
      } in
      omega (
        arith,
        named-send_batches (length batches) 0 batches none_yet,
        ap (λ ps. times i (map HallPass.id ps)) (chunk_passes-joined passes size h).0,
      )
