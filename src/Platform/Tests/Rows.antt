-- ===== src/Platform/Tests/Rows.antt =====
-- The rows of one wedding with one event, two guests and its scanner, and the calls of an evening.
use save_the_date.Base.{ℕ, true, false, none, some, List, [], ◌∷◌, ◌++◌, Text, codes}
use save_the_date.Platform.Capability.{owner, security}
use save_the_date.Platform.Households.{Grant, GuestSession, confirmed}
use save_the_date.Platform.Admission.Model.{
  World, Pass, active, Event, Attendee, Rsvp, automatic, Ports, Circumstances, written, to_declined,
}
use save_the_date.Platform.Admission.Trace.{
  Call, issuing, revoking, reissuing, redeeming, sweeping, correcting,
}

-- A hash that reads back is enough here, under one key.
abbrev pub ports : Ports
ports = record {
  lower = λ s. s;
  upper = λ s. s;
  hash = λ s. codes "h" ++ s;
  candidates = λ s. (codes "h" ++ s) ∷ [];
  digest = λ body. codes "d";
  decimal = λ n. n ∷ [];
  seal = some (λ token manual scope. token ++ manual ++ scope);
}

abbrev pub at_time : ℕ → Text → Circumstances
at_time now fresh = record {
  now = now;
  written_at = now;
  fresh_id = fresh;
  credential = codes "t" ++ fresh;
  manual_credential = codes "ABCDEFGH";
  ledger_readable = true;
  intent_write = written;
  commit_write = written;
  erasure_write = λ id. written;
}

abbrev pub pass : Text → Text → Text → Pass
pass id attendee token = record {
  id = id;
  attendee_id = attendee;
  event_id = codes "e1";
  status = active;
  credential_hash = codes "hadmission:" ++ token;
  manual_hash = codes "hadmission:ADM" ++ token;
  encrypted_payload = some (codes "sealed");
  version = 1;
  used_at = none;
  used_by = none;
  issued_at = 0;
  revoked_reason = none;
}

abbrev pub event : Event
event = record {
  id = codes "e1";
  starts_at = some 10000000;
  admission_starts_at = none;
  admission_ends_at = none;
  admission_policy = automatic;
  capacity = none;
  confirmed_count = 2;
  ends_at = none;
  rsvp_cutoff = none;
  manual_approval = false;
}

abbrev pub grant : Grant
grant = record {
  id = codes "g1";
  party_id = codes "h1";
  token_hash = codes "hrsvp:G1";
  code_hash = codes "hrsvp:C1";
  expires_at = 90000000;
  revoked_at = none;
}

abbrev pub guest_session : GuestSession
guest_session = record {
  id = codes "s1";
  grant_id = codes "g1";
  token_hash = codes "hs1";
  expires_at = 90000000;
}

abbrev pub attendee : Text → Text → Attendee
attendee id name = record {
  id = id;
  name = name;
  version = 1;
  deleted_at = none;
  party_id = codes "h1";
  email = some (codes "a@b.de");
  plus_one_of = none;
}

abbrev pub rsvp : Text → Rsvp
rsvp attendee_id = record {
  attendee_id = attendee_id;
  event_id = codes "e1";
  state = confirmed;
  version = 1;
  meal = [];
  dietary = [];
  accessibility = [];
  note = [];
}

abbrev pub world : World
world = record {
  db = record {
    wedding_id = codes "w1";
    wedding_deleted_at = none;
    archived = false;
    primary_owner_id = codes "own";
    parties = record { id = codes "h1"; deleted_at = none } ∷ [];
    guest_grants = grant ∷ [];
    guest_sessions = guest_session ∷ [];
    attendee_events =
        record { attendee_id = codes "a1"; event_id = codes "e1" }
        ∷ record { attendee_id = codes "a2"; event_id = codes "e1" }
        ∷ [];
    questions = [];
    jobs = [];
    ownership_recovery_hold = false;
    members =
        record { user_id = codes "own"; role = owner }
        ∷ record { user_id = codes "sec"; role = security }
        ∷ [];
    member_events = record { user_id = codes "sec"; resource_id = codes "e1" } ∷ [];
    member_albums = [];
    legacy_transfers = codes "completed" ∷ [];
    recovery_holds = [];
    events = event ∷ [];
    attendees = attendee (codes "a1") (codes "Ada") ∷ attendee (codes "a2") (codes "Bob") ∷ [];
    rsvps = rsvp (codes "a1") ∷ rsvp (codes "a2") ∷ [];
    reservations =
        record { attendee_id = codes "a1"; event_id = codes "e1" }
        ∷ record { attendee_id = codes "a2"; event_id = codes "e1" }
        ∷ [];
    passes = pass (codes "p1") (codes "a1") (codes "T1") ∷ [];
    admissions = [];
    scan_operations = [];
    operation_keys = [];
    corrections = [];
    files = [];
    history = [];
    audits = [];
    metrics = [];
  };
  erasures = [];
  ledger = some [];
}

abbrev pub scan_ada : Call
scan_ada =
    redeeming (at_time 10000500 (codes "m1")) (codes "sec") (codes "e1")
      (codes "std-admission:v1:T1") (codes "k1")

-- Ada is admitted once, and refused under another key; Bob gets a pass, which is revoked and
-- reissued; Ada is corrected; the sweep ends what is left.
abbrev pub evening : List Call
evening =
    scan_ada
    ∷ redeeming (at_time 10000600 (codes "m2")) (codes "sec") (codes "e1")
        (codes "std-admission:v1:T1") (codes "k2")
    ∷ issuing (at_time 10000700 (codes "p2")) (codes "own") (codes "a2") (codes "e1") (codes "k3")
    ∷ revoking (at_time 10000800 (codes "m3")) (codes "own") (codes "p2") 1 (codes "lost")
        (codes "k4")
    ∷ reissuing (at_time 10000900 (codes "m4")) (codes "own") (codes "p2") 2 (codes "found")
        (codes "k5")
    ∷ correcting (codes "own")
        (record {
          attendee_id = codes "a1";
          event_id = codes "e1";
          name = codes "Ada L";
          state = some to_declined;
          reason = codes "left early";
        })
        (codes "k6")
    ∷ sweeping (at_time 99999999 (codes "m5"))
    ∷ []
