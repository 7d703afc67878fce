-- ===== src/Engine/Approval.antt =====
-- `_check_approval` (hardening_loop/orchestrator/engine.py), on the reviews that GitHub lists.
use superset_hardening_loop.Prelude.{
  ℕ, ◌≤◌, String, ◌≡◌, refl, sym, ap, subst, ◌∙◌, inl, inr, ◌⊎◌, Bool, true, false, ◌&&◌, not,
  Option, none, some, List, [], ◌∷◌, ◌++◌, arith,
}
use superset_hardening_loop.Prelude.Tests.{if◌then◌else◌, Bool-cases}
use superset_hardening_loop.Prelude.Equality.{string_eq, ◌==◌}
use superset_hardening_loop.Prelude.Lists.{contains}
use superset_hardening_loop.Prelude.Strings.{concat}
use superset_hardening_loop.Domain.LifecycleLevel.{LifecycleLevel, level_number}
use superset_hardening_loop.Engine.World.{World}
use superset_hardening_loop.Engine.Levels.{raise_level}

-- `PRReview` (hardening_loop/github/protocol.py), with the fields that are read here.
pub record Review : Type 0 where
  pub author : String
  pub state : String
  pub commit_sha : String

abbrev is_text : Option String → String → Bool
is_text none t = false
is_text (some s) t = s == t

is_text-some : (o : Option String) (t : String) → is_text o t ≡ true → o ≡ some t
is_text-some none t h = cc
is_text-some (some s) t h = ap some ((string_eq.agree_iff s t).0 h)

-- The test on one review.
abbrev pub counts_as_approval : List String → String → Review → Bool
counts_as_approval approvers head_sha r =
    r.state == "APPROVED" && contains approvers r.author && r.commit_sha == head_sha

abbrev approved : String → World → World
approved author w = record w { row = record w.row { approved_by = some author } }

unfoldable pub check_approval : List String → ℕ → String → List Review → World → World
check_approval approvers now head_sha [] w = w
check_approval approvers now head_sha (r ∷ rs) w =
    let rest = check_approval approvers now head_sha rs w in
    if counts_as_approval approvers head_sha r
    then if not (is_text w.row.approved_by r.author)
      then raise_level now LifecycleLevel.human_approved (concat ("approved_by:" ∷ r.author ∷ []))
          (approved r.author w)
      else w
    else rest

raise_level-bound :
    (now : ℕ) (level : LifecycleLevel) (why : String) (w : World)
    → (level_number w.item.lifecycle_level
        ≤ level_number (raise_level now level why w).item.lifecycle_level)
      × (level_number level ≤ level_number (raise_level now level why w).item.lifecycle_level)
unfolding raise_level
raise_level-bound now level why w = ground arith

row-raise_level :
    (now : ℕ) (level : LifecycleLevel) (why : String) (w : World)
    → (raise_level now level why w).row.approved_by ≡ w.row.approved_by
unfolding raise_level
row-raise_level now level why w = ground arith

-- An approval of this head by a listed approver, and a review that is none.
abbrev pub IsApproval : List String → String → Review → Type 0
IsApproval approvers head_sha r =
    (r.state ≡ "APPROVED") × (contains approvers r.author ≡ true) × (r.commit_sha ≡ head_sha)

abbrev pub IsOther : List String → String → Review → Type 0
IsOther approvers head_sha r =
    ((r.state == "APPROVED") ≡ false)
    ⊎ (contains approvers r.author ≡ false)
    ⊎ ((r.commit_sha == head_sha) ≡ false)

abbrev pub NoneApproves : List String → String → List Review → Type 0
NoneApproves approvers head_sha [] = Unit
NoneApproves approvers head_sha (r ∷ rs) =
    IsOther approvers head_sha r × NoneApproves approvers head_sha rs

-- Nothing changes if the approver is on record; otherwise he is, and the level is `human_approved`.
abbrev pub IsRecorded : Review → World → World → Type 0
IsRecorded r w v =
    ((w.row.approved_by ≡ some r.author) × (v ≡ w))
    ⊎ ((v.row.approved_by ≡ some r.author) × (4 ≤ level_number v.item.lifecycle_level))

-- The first approval among the reviews.
abbrev pub ApprovedBy : List String → String → List Review → World → World → Type 0
ApprovedBy approvers head_sha rs w v =
    (before : List Review) × (r : Review) × (after : List Review) × ((rs ≡ before ++ r ∷ after)
      × NoneApproves approvers head_sha before
      × IsApproval approvers head_sha r
      × IsRecorded r w v)

counts_as_approval-IsApproval :
    (approvers : List String) (head_sha : String) (r : Review)
    → counts_as_approval approvers head_sha r ≡ true
    → IsApproval approvers head_sha r
counts_as_approval-IsApproval approvers head_sha r h =
    let approves : (r.state == "APPROVED") ≡ true = ground arith in
    let here : (r.commit_sha == head_sha) ≡ true = ground arith in
    (
      (string_eq.agree_iff r.state "APPROVED").0 approves,
      ground arith,
      (string_eq.agree_iff r.commit_sha head_sha).0 here,
    )

counts_as_approval-IsOther :
    (approvers : List String) (head_sha : String) (r : Review)
    → counts_as_approval approvers head_sha r ≡ false
    → IsOther approvers head_sha r
counts_as_approval-IsOther approvers head_sha r h = ground arith

check_approval-IsRecorded :
    (approvers : List String) (now : ℕ) (head_sha : String) (r : Review) (rs : List Review)
    (w : World)
    → counts_as_approval approvers head_sha r ≡ true
    → IsRecorded r w (check_approval approvers now head_sha (r ∷ rs) w)
unfolding check_approval
check_approval-IsRecorded approvers now head_sha r rs w e =
    elim (Bool-cases (is_text w.row.approved_by r.author)) [
      | inl known ↦
          inl
            ((is_text-some w.row.approved_by r.author known, rw (check_approval, e, known) (refl)))
      | inr new ↦
          let why = concat ("approved_by:" ∷ r.author ∷ []) in
          let seen = approved r.author w in
          inr (
            rw (check_approval, e, new)
              ((
                row-raise_level now LifecycleLevel.human_approved why seen,
                (raise_level-bound now LifecycleLevel.human_approved why seen).1,
              )))
    ]

-- Reviews none of which is an approval, by a listed approver, of this very head change nothing. Otherwise
-- the first that is one is recorded: its author is on record and the level is at least `human_approved`,
-- or its author was on record before and nothing changes.
pub check_approval_sound :
    (approvers : List String) (now : ℕ) (head_sha : String) (rs : List Review) (w : World)
    → (NoneApproves approvers head_sha rs × (check_approval approvers now head_sha rs w ≡ w))
      ⊎ ApprovedBy approvers head_sha rs w (check_approval approvers now head_sha rs w)
unfolding check_approval
check_approval_sound approvers now head_sha [] w = inl (tt, refl)
check_approval_sound approvers now head_sha (r ∷ rs) w =
    elim (Bool-cases (counts_as_approval approvers head_sha r)) [
      | inr e ↦
          let other = counts_as_approval-IsOther approvers head_sha r e in
          let skip : check_approval approvers now head_sha (r ∷ rs) w
              ≡ check_approval approvers now head_sha rs w =
            rw (check_approval, e) refl in
          elim (check_approval_sound approvers now head_sha rs w) [
            | inl (none_does, same) ↦ inl ((other, none_does), skip ∙ same)
            | inr (before, q, after, (split, none_does, approval, recorded)) ↦ inr (
                (
                  r ∷ before,
                  q,
                  after,
                  (
                    ap (λ (qs : List Review). r ∷ qs) split,
                    (other, none_does),
                    approval,
                    subst (λ (v : World). IsRecorded q w v) (sym skip) recorded,
                  ),
                ))
          ]
      | inl e ↦ inr (
          (
            [],
            r,
            rs,
            (
              refl,
              tt,
              counts_as_approval-IsApproval approvers head_sha r e,
              check_approval-IsRecorded approvers now head_sha r rs w e,
            ),
          ))
    ]
