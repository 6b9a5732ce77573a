-- ===== src/Mail/Batches.antt =====
-- Sending passes by mail: `sendMailerooEmail` of apps/web/src/lib/maileroo.ts, and `chunkPasses`,
-- `sendPassPdfEmail` and `sendPassPdfEmailsBatched` of apps/web/src/lib/passEmail.ts. The provider
-- and the PDF renderer are parameters.
pub mod Laws
use save_the_date.Base.{
  ℕ, zero, suc, ◌+◌, Bool, true, false, not, ◌||◌, Option, none, some, List, [], ◌∷◌, ◌++◌, map,
  Text, codes, is_empty, or_text, length, take, drop, ltb, if◌then◌else◌, Outcome, returned, thrown,
}
use save_the_date.HallPasses.Model.{HallPass}
use save_the_date.Mail.Message.{to_string, build_subject, build_plain_message, build_html_message}

abbrev pub pass_email_batch_size : ℕ
pass_email_batch_size = 10

pub record Attachment : Type 0 where
  pub file_name : Text
  pub content : Text

pub record Mail : Type 0 where
  pub recipient : Text
  pub subject : Text
  pub plain : Text
  pub html : Text
  pub attachments : List Attachment

-- The answer of the provider: `response.ok`, the status, and the body, if it is JSON.
pub record Answer : Type 0 where
  pub is_ok : Bool
  pub status : ℕ
  pub success : Option Bool
  pub message : Option Text

-- What the module takes from outside: whether the API key and the sender are configured, the
-- provider, and the renderer of `createPassPdfBuffer` with the name of its file.
pub record Provider : Type 0 where
  pub is_configured : Bool
  pub post : Mail → Answer
  pub render : HallPass → Outcome Text Attachment

-- `data?.success === false`
is_denied : Option Bool → Bool
is_denied none = false
is_denied (some b) = not b

-- `data?.message || …`
denial : Answer → Text
denial a = elim a.message [
  | none ↦ codes "Maileroo request failed with status " ++ (to_string a.status ++ codes ".")
  | some m ↦
      or_text m (codes "Maileroo request failed with status " ++ (to_string a.status ++ codes "."))
]

module _ (provider : Provider) where
  -- `sendMailerooEmail(input)`
  send_maileroo_email : Mail → Outcome Text (Unit {0})
  send_maileroo_email mail =
      if not provider.is_configured
      then thrown (codes "Missing MAILEROO_API_KEY or MAILEROO_FROM_EMAIL.")
      else if not (provider.post mail).is_ok || is_denied (provider.post mail).success
      then thrown (denial (provider.post mail))
      else returned tt

  -- `Promise.all` over the attachments: the first failure is thrown
  attachments_of : List HallPass → Outcome Text (List Attachment)
  attachments_of [] = returned []
  attachments_of (p ∷ ps) = elim (provider.render p) [
    | thrown e ↦ thrown e
    | returned a ↦ elim (attachments_of ps) [
      | thrown e ↦ thrown e
      | returned as' ↦ returned (a ∷ as')
    ]
  ]

  -- `sendPassPdfEmail(input)`
  pub send_pass_pdf_email : List HallPass → Text → Text → Option Text → Outcome Text (Unit {0})
  send_pass_pdf_email passes recipient message label = elim (attachments_of passes) [
    | thrown e ↦ thrown e
    | returned attachments ↦ send_maileroo_email (record {
      recipient = recipient;
      subject = build_subject passes label;
      plain = build_plain_message message passes;
      html = build_html_message message passes;
      attachments = attachments;
    })
  ]

-- `for (let index = 0; index < items.length; index += size)`, by the rounds that may be left
chunks {ℓ} : {A : Type ℓ} → ℕ → ℕ → List A → List (List A)
chunks zero size items = []
chunks (suc fuel) size [] = []
chunks (suc fuel) size (x ∷ xs) = take size (x ∷ xs) ∷ chunks fuel size (drop size (x ∷ xs))

-- `chunkPasses(items, size)`: a round for every item is enough, since a chunk is not empty.
pub chunk_passes {ℓ} : {A : Type ℓ} → List A → ℕ → List (List A)
chunk_passes items size = chunks (length items) size items

-- `PassEmailBatchResult`
pub record BatchResult : Type 0 where
  pub sent_pass_ids : List ℕ
  pub failed_pass_ids : List ℕ
  pub errors : List Text

-- `${index + 1}/${batches.length}` where there are several batches
batch_label : ℕ → ℕ → Option Text
batch_label index total =
    if ltb 1 total then some (to_string (index + 1) ++ (codes "/" ++ to_string total)) else none

-- What one batch adds to the result.
record_batch : ℕ → List HallPass → Outcome Text (Unit {0}) → BatchResult → BatchResult
record_batch index batch (returned u) r = record r {
  sent_pass_ids = r.sent_pass_ids ++ map HallPass.id batch;
}
record_batch index batch (thrown e) r = record r {
  failed_pass_ids = r.failed_pass_ids ++ map HallPass.id batch;
  errors = r.errors ++ (codes "Batch " ++ (to_string (index + 1) ++ (codes ": " ++ e))) ∷ [];
}

module _ (provider : Provider) (recipient message : Text) where
  -- The loop over `batches.entries()`.
  send_batches : ℕ → ℕ → List (List HallPass) → BatchResult → BatchResult
  send_batches total index [] r = r
  send_batches total index (batch ∷ batches) r = send_batches total (index + 1) batches (
      record_batch index batch
        (send_pass_pdf_email provider batch recipient message (batch_label index total)) r)

  -- `sendPassPdfEmailsBatched(input)` with the size of a batch
  pub send_pass_pdf_emails_batched : ℕ → List HallPass → BatchResult
  send_pass_pdf_emails_batched size passes =
      let batches = chunk_passes passes size in
      send_batches (length batches) 0 batches
        (record { sent_pass_ids = []; failed_pass_ids = []; errors = [] })
