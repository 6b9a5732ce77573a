-- ===== src/HallPasses/Update.antt =====
-- An update of some passes that leaves their keys alone keeps the table well formed.
use save_the_date.Base.{
  ◌<◌, ◌≡◌, Bool, All-update_where, Distinct-update_where, update_where, sym, subst,
}
use save_the_date.HallPasses.Model.{HallPass, Db, IsWellFormed}

-- The id, the token and the ticket number stay.
abbrev pub KeepsKeys : (HallPass → HallPass) → Type 0
KeepsKeys change =
    (p : HallPass)
    → ((change p).id ≡ p.id)
      × ((change p).token ≡ p.token)
      × ((change p).ticket_number ≡ p.ticket_number)

pub update-IsWellFormed :
    (test : HallPass → Bool) (change : HallPass → HallPass) (db : Db)
    → KeepsKeys change
    → IsWellFormed db
    → IsWellFormed (record db { passes = update_where test change db.passes })
update-IsWellFormed test change db keep wf = record {
  ids = Distinct-update_where HallPass.id test change (λ p. (keep p).0) db.passes wf.ids;
  tokens = Distinct-update_where HallPass.token test change (λ p. (keep p).1) db.passes wf.tokens;
  numbers =
      Distinct-update_where HallPass.ticket_number test change (λ p. (keep p).2) db.passes
        wf.numbers;
  ahead =
      All-update_where (λ p. p.ticket_number < db.next_ticket) test change db.passes
        (λ p h. subst (λ n. n < db.next_ticket) (sym (keep p).2) h) wf.ahead;
}
