-- ===== src/Lib.antt =====
-- Save The Date: the original wedding site, which issues hall passes, scans them at the door, mails
-- them to guests and shows a gallery; and the rebuilt platform, which issues and admits the entry
-- passes of many weddings.
--
-- Parts, and the code that they are about:
--
-- - Auth: apps/web/src/lib/auth.ts and users.ts, and the handlers under apps/web/app/api/auth.
--   Auth.Session has `canAccessRole`, Auth.Token the signed cookie (`createSessionToken`,
--   `verifySessionToken`), Auth.Login the users and the three handlers.
-- - HallPasses: apps/web/src/lib/hallPasses.ts and hallPassPaging.ts, with the SQL function
--   `redeem_hall_pass` of db/migrations/008_add_ticket_numbers.sql. Model has the rows and the
--   tables, Redeem `redeemHallPass` and `logScanAttempt`, Create `createHallPasses` with its
--   transaction, Settings the limit, Manage invalidation and delivery records, Listing the pages
--   of the list, InviteStats the counts by inviter. Trace puts all operations that write into one
--   type and runs sequences of them.
-- - Mail: apps/web/src/lib/passEmail.ts, maileroo.ts and passPdf.ts. Address is `isLikelyEmail`,
--   Escape is `escapeHtml`, Message the texts of a mail, Batches the sending, Pdf the name of a
--   pass's file and the shortening of its texts.
-- - Routes: the handlers under apps/web/app/api/passes and apps/web/app/api/ticket-settings, and
--   apps/web/src/lib/legacy-write-fence.ts. Guard is what they begin with, Scan the redeem
--   handler, Issue apps/web/app/api/passes/route.ts, Administer the rest; Refusals speaks of all.
-- - Dashboard: apps/web/src/components/admin/PassDashboard.tsx. Form has the form that issues
--   passes, up to the request that Routes.Issue receives. Panel has the state of the list, the limit
--   and the dialogs with the fields and buttons of the list, Panel.Loading `loadPasses` and the
--   effect that calls it again, Panel.Dialogs the other handlers, cut where they wait;
--   Ranges, Paging and Counts follow them.
-- - Uploader: apps/web/src/components/admin/CloudinaryImageUploader.tsx. Images makes and sends the
--   copy of a picture, Queue has the state of the page and its handlers; Settling, Sending and
--   Working follow the loop over the items.
-- - Scanner: apps/web/src/components/scanner/HallPassScanner.tsx. Screen has the state of the
--   component and its handlers, Entry the fields of the token, Session sequences of events.
-- - Platform: the rebuilt platform. Capability is `requireCapability` of
--   packages/domain/src/index.ts. Admission is packages/persistence/src/passes.ts over the tables of
--   packages/persistence/migrations: Model the rows of one wedding, the ledger of
--   packages/adapters/src/admission-ledger.ts and `admissionWindow`; Guards the helpers that the
--   operations share, with `transaction` and `tenant` of packages/persistence/src/index.ts; Passes
--   `issue`; Control `revoke`, `reissue` and `sweep`; Redeem and Scan `redeem`; Correct
--   `correction`. Life has the transition diagram of a pass, Effects, Leaves and Judging what an
--   action may do to the rows, Gate what a scan reads first, Scanned the row that it records, Replay
--   a scan that is sent again, Trace sequences of calls. Jobs is packages/persistence/src/jobs.ts.
--   Households is packages/persistence/src/guests.ts over the same rows: Access the grants and
--   sessions of guests, Release and Record the two loops of `submit`, Submit the whole of it, Manage
--   `approve` and `remove`. Places says when the places at events are booked, Taking to Passing what
--   keeps them so, and Trace runs sequences of calls. Csv is `csvCell`, `parseCsv` and the tables of
--   the exports.
-- - Media: apps/web/src/data/mediaCategories.ts, apps/web/src/lib/cloudinaryMedia.ts and r2.ts,
--   and the handlers under apps/web/app/api/media.
-- - Base: lists over the native numbers, rows of a table, JavaScript strings as lists of UTF-16
--   code units, and computations that return or throw.
--
-- How they interact: a handler of Routes takes the session that Auth reads from a cookie and the
-- state of the fence, and is a computation over the database of HallPasses that returns a
-- response or throws. The handlers that send mail call Mail, and record its result on the passes.
--
-- The platform does not share tables with the original site. An operation on its passes is a
-- computation over a world, the database and the ledger; what throws in a transaction is rolled
-- back, while what was written to the ledger stays. Scanner sends what Routes.Scan receives, and
-- Scanner.Entry reads the tokens that HallPasses.Create makes.
--
-- Conventions. A function of the code is a definition of the same name in snake case. A statement
-- that writes to the database takes the tables and gives them back. Ids are numbers, and texts on
-- the platform; an instant is a number of milliseconds, and `now` is an argument. Page numbers and
-- limits are natural numbers, and request bodies have the types that the handlers give them.
--
-- From outside, as arguments: HMAC, base64url and JSON (Codec), bcrypt, `toUpperCase`,
-- `toLowerCase`, `normalize`, `decodeURIComponent` and the URL parser, SHA-1, random bytes and new
-- ids (Draw), `ilike` and the collation of PostgreSQL and the order that it gives the rows of a
-- query, of which only what `order by` says is taken (Orders), the mail provider and the PDF renderer
-- (Provider), `Number` on the count of the form and `toString` of a number, Cloudinary and the object
-- store, the decoder, canvas and connection of a browser (Browser); for the platform,
-- the keyed hash, the digest of a request and the admission key (Ports), and for each call the
-- clock, fresh ids and credentials and the behaviour of the storage behind the ledger
-- (Circumstances).
--
-- Bounds and fuel: the attempt loop of `createHallPasses` has the five rounds of the code.
-- `chunkPasses` runs for as many rounds as there are items, which is enough since no chunk is
-- empty. Media.Paging runs the loops that read a service page by page for a number of rounds that
-- is an argument, and `none` is a loop that used them up; as many rounds as pages are enough.
--
-- Not modelled: failures of the database, concurrent transactions (a call is one step; the code
-- locks the settings row in `createHallPasses` and the event row in the operations on passes, and
-- `redeem_hall_pass` is one statement; the queries of the job queue are one step each), Next's
-- caches, the drawing of PDFs, the React pages but for the scanner, the uploader and the dashboard,
-- `processOne`, the tickets and the lists of the platform's passes, the guest list, the import, the
-- requests for access and the questions of guests.ts, and the rest of apps/api, apps/worker and
-- packages. The check of `std_events` that a count is within the capacity is not made by the model;
-- it would turn what the invariant excludes into an error. The sizes of a copy are rounded from
-- exact quotients, which the code takes in floating point.
pub mod Base
pub mod Auth
pub mod Dashboard
pub mod HallPasses
pub mod Mail
pub mod Media
pub mod Platform
pub mod Routes
pub mod Scanner
pub mod Uploader
