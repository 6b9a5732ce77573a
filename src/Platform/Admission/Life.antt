-- ===== src/Platform/Admission/Life.antt =====
-- The life of a pass as a transition diagram, the rows of a wedding along it, and admissions.
use save_the_date.Base.{
  ◌≡◌, ◌≢◌, ◌⊎◌, inl, inr, suc, refl, Bool, true, List, [], ◌∷◌, ◌++◌, Text, is_some, any, ◌&&◌,
  same, update_where, All, Distinct, All-update_where, Distinct-update_where, Bool-cases, arith,
}
use save_the_date.Platform.Admission.Model.{
  Db, World, Admission, Pass, PassStatus, active, revoked, used, expired,
}
use save_the_date.Platform.Admission.Passes.{is_active}
use save_the_date.Platform.Admission.Redeem.{is_used_status}

-- The life of a pass: the only edges between its statuses. No edge leaves `used`.
pub data Move : PassStatus → PassStatus → Type 0 where
  to_revoked : Move active revoked
  to_expired : Move active expired
  to_used : Move active used
  to_active : {s : PassStatus} → s ≢ used → Move s active

-- A row after one step: the same pass in the next version, along an edge.
abbrev pub Moved : Pass → Pass → Type 0
Moved p q =
    Move p.status q.status
    × (q.version ≡ suc p.version)
    × (q.id ≡ p.id)
    × (q.attendee_id ≡ p.attendee_id)
    × (q.event_id ≡ p.event_id)

-- A row that an issue added
abbrev pub Issued : Pass → Type 0
Issued p = (p.status ≡ active) × (p.version ≡ 1)

-- Every row stays as it is or moves, and new rows follow.
abbrev pub Evolves : List Pass → List Pass → Type 0
Evolves [] qs = All Issued qs
Evolves (p ∷ ps) [] = ⊥
Evolves (p ∷ ps) (q ∷ qs) = ((p ≡ q) ⊎ Moved p q) × Evolves ps qs

-- A pass holds its sealed credentials exactly while it is active.
abbrev pub IsSealed : Pass → Type 0
IsSealed p = is_some p.encrypted_payload ≡ is_active p.status

-- The rows that admission is about
pub record View : Type 0 where
  pub passes : List Pass
  pub admissions : List Admission

abbrev pub rows : Db → View
rows db = record { passes = db.passes; admissions = db.admissions }

abbrev pub view : World → View
view w = rows w.db

abbrev pub IsWellFormed : View → Type 0
IsWellFormed v = Distinct Pass.id v.passes × All IsSealed v.passes

abbrev pub has_active : Text → List Pass → Bool
has_active i ps = any (λ p. same p.id i && is_active p.status) ps

abbrev pub has_used : Text → List Pass → Bool
has_used i ps = any (λ p. same p.id i && is_used_status p.status) ps

-- The admissions stay, or one of a pass follows that was active and is used now.
abbrev pub Admits : View → View → Type 0
Admits v v' =
    (v'.admissions ≡ v.admissions)
    ⊎ ((a : Admission) × (v'.admissions ≡ v.admissions ++ a ∷ [])
        × (has_active a.pass_id v.passes ≡ true)
        × (has_used a.pass_id v'.passes ≡ true))

pub active_of : (s : PassStatus) → is_active s ≡ true → s ≡ active
active_of s h = ground arith

pub Evolves-refl : (ps : List Pass) → Evolves ps ps
Evolves-refl [] = tt
Evolves-refl (p ∷ ps) = (inl refl, Evolves-refl ps)

pub Evolves-append : (ps : List Pass) (p : Pass) → Issued p → Evolves ps (ps ++ p ∷ [])
Evolves-append [] p i = (i, tt)
Evolves-append (q ∷ qs) p i = (inl refl, Evolves-append qs p i)

pub Evolves-update_where :
    (test : Pass → Bool) (f : Pass → Pass) (ps : List Pass)
    → All (λ p. test p ≡ true → Moved p (f p)) ps
    → Evolves ps (update_where test f ps)
Evolves-update_where test f [] h = tt
Evolves-update_where test f (p ∷ ps) h = elim (Bool-cases (test p)) [
  | inl hit ↦ rw hit (inr (h.0 hit), Evolves-update_where test f ps h.1)
  | inr miss ↦ rw miss (inl refl, Evolves-update_where test f ps h.1)
]

-- All of it: the rows of an action that began with `v` and ended with `v'`
abbrev pub Stepped : View → View → Type 0
Stepped v v' = IsWellFormed v' × Evolves v.passes v'.passes × Admits v v'

pub Stepped-refl : (v : View) → IsWellFormed v → Stepped v v
Stepped-refl v wf = (wf, Evolves-refl v.passes, inl refl)

-- An update of the rows that a test keeps, where they move and stay well formed
pub Stepped-update_where :
    (test : Pass → Bool) (f : Pass → Pass) (v : View)
    → ((p : Pass) → (f p).id ≡ p.id)
    → ((p : Pass) → IsSealed (f p))
    → All (λ p. test p ≡ true → Moved p (f p)) v.passes
    → IsWellFormed v
    → IsWellFormed (record v { passes = update_where test f v.passes })
      × Evolves v.passes (update_where test f v.passes)
Stepped-update_where test f v keep sealed moves wf = (
  (
    Distinct-update_where Pass.id test f keep v.passes wf.0,
    All-update_where IsSealed test f v.passes (λ p s. sealed p) wf.1,
  ),
  Evolves-update_where test f v.passes moves,
)
