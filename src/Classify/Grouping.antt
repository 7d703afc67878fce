-- ===== src/Classify/Grouping.antt =====
-- What the grouping keeps of the classified findings (hardening_loop/classify/group.py).
use superset_hardening_loop.Prelude.{
  ℕ, ◌+◌, ◌≤◌, max, String, ◌≡◌, refl, inl, inr, Bool, true, false, ◌&&◌, none, some, List, [], ◌∷◌,
  ◌++◌, map, append_assoc, append-nil, sym, arith,
}
use superset_hardening_loop.Prelude.Tests.{nat_beq, ltb, if◌then◌else◌, Bool-cases, Option-cases}
use superset_hardening_loop.Prelude.Equality.{string_eq, ◌==◌}
use superset_hardening_loop.Prelude.Lists.{all, keep_if, sum_by, count, sum_by-append}
use superset_hardening_loop.Prelude.Sorting.{sort_by, sum_by-sort_by}
use superset_hardening_loop.Domain.Severity.{Severity, rank}
use superset_hardening_loop.Domain.Kind.{Kind, number}
use superset_hardening_loop.Ingest.Normalized.{NormalizedFinding}
use superset_hardening_loop.Classify.Group.{
  group_key, Item, Bucket, items_of, WorkItemCandidate, add_to_bucket, fill_buckets, max_severity,
  finding_of, candidate_of, bucket_lt, group_findings,
}

abbrev pub is_unclassified : Item → Bool
is_unclassified (f, c) = elim c.kind [ none ↦ true | some k ↦ false ]

-- The members of all candidates that meet a test, and the items of all buckets whose findings do.
abbrev pub members_meeting : (NormalizedFinding → Bool) → List WorkItemCandidate → ℕ
members_meeting p cs = sum_by (λ (c : WorkItemCandidate). count p c.members) cs

abbrev of_item : (NormalizedFinding → Bool) → Item → Bool
of_item p i = p (finding_of i)

abbrev in_bucket : (NormalizedFinding → Bool) → Bucket → ℕ
in_bucket p b = count (of_item p) (items_of b)

count-map :
    (p : NormalizedFinding → Bool) (is : List Item)
    → count p (map finding_of is) ≡ count (of_item p) is
count-map p [] = refl
count-map p (i ∷ is) = omega (arith, count-map p is)

members-candidate_of :
    (p : NormalizedFinding → Bool) (bs : List Bucket)
    → members_meeting p (map candidate_of bs) ≡ sum_by (in_bucket p) bs
unfolding candidate_of
members-candidate_of p [] = refl
members-candidate_of p (b ∷ bs) = omega (arith, count-map p b.later, members-candidate_of p bs)

in_bucket-add_to_bucket :
    (p : NormalizedFinding → Bool) (kind : Kind) (key : String) (i : Item) (bs : List Bucket)
    → sum_by (in_bucket p) (add_to_bucket kind key i bs)
      ≡ (if of_item p i then 1 else 0) + sum_by (in_bucket p) bs
unfolding add_to_bucket
in_bucket-add_to_bucket p kind key i [] = omega arith
in_bucket-add_to_bucket p kind key i (b ∷ bs) =
    elim (Bool-cases (nat_beq (number b.kind) (number kind) && b.key == key)) [
      | inl e ↦ ground (arith, sum_by-append (λ x. if of_item p x then 1 else 0) b.later (i ∷ []))
      | inr e ↦ ground (arith, in_bucket-add_to_bucket p kind key i bs)
    ]

fill_buckets_conserves :
    (p : NormalizedFinding → Bool) (is : List Item) (bs : List Bucket) (us : List Item)
    → sum_by (in_bucket p) (fill_buckets is bs us).0 + count (of_item p) (fill_buckets is bs us).1
      ≡ sum_by (in_bucket p) bs + count (of_item p) us + count (of_item p) is
unfolding fill_buckets
fill_buckets_conserves p [] bs us = omega arith
fill_buckets_conserves p ((f, c) ∷ is) bs us = elim (Option-cases c.kind) [
  | inl e ↦ ground (
    arith,
    fill_buckets_conserves p is bs (us ++ (f, c) ∷ []),
    sum_by-append (λ x. if of_item p x then 1 else 0) us ((f, c) ∷ []),
  )
  | inr (k, e) ↦ ground (
    arith,
    fill_buckets_conserves p is (add_to_bucket k (group_key f c) (f, c) bs) us,
    in_bucket-add_to_bucket p k (group_key f c) (f, c) bs,
  )
]

-- Grouping loses and doubles no finding: whatever a test picks out, as many findings meet it among the
-- members of the candidates and the unclassified findings together as among the classified ones.
pub grouping_conserves :
    (p : NormalizedFinding → Bool) (classified : List Item)
    → members_meeting p (group_findings classified).0
        + count p (map finding_of (group_findings classified).1)
      ≡ count p (map finding_of classified)
unfolding group_findings
grouping_conserves p classified =
    let filled = fill_buckets classified [] [] in
    omega (
      arith,
      members-candidate_of p (sort_by bucket_lt filled.0),
      sum_by-sort_by bucket_lt (in_bucket p) filled.0,
      fill_buckets_conserves p classified [] [],
      count-map p filled.1,
      count-map p classified,
    )

-- The highest rank among the members.
abbrev pub top_rank : List NormalizedFinding → ℕ
top_rank [] = 0
top_rank (f ∷ fs) = max (rank f.severity) (top_rank fs)

max_severity_lem :
    (best : Severity) (is : List Item)
    → rank (max_severity best (map (λ (f : NormalizedFinding). f.severity) (map finding_of is)))
      ≡ max (rank best) (top_rank (map finding_of is))
max_severity_lem best [] = omega arith
max_severity_lem best ((f, c) ∷ is) =
    ground
      (arith, max_severity_lem (if ltb (rank best) (rank f.severity) then f.severity else best) is)

-- The severity is the highest of the members'.
abbrev pub has_top_severity : WorkItemCandidate → Bool
has_top_severity c = nat_beq (rank c.severity) (top_rank c.members)

candidate_of-has_top_severity : (b : Bucket) → has_top_severity (candidate_of b) ≡ true
unfolding candidate_of
candidate_of-has_top_severity b =
    ground (arith, max_severity_lem (finding_of b.first).severity b.later)

all_top_severity : (bs : List Bucket) → all has_top_severity (map candidate_of bs) ≡ true
all_top_severity [] = refl
all_top_severity (b ∷ bs) = ground (arith, candidate_of-has_top_severity b, all_top_severity bs)

-- The severity of every candidate is the highest among its members.
pub grouping_severity :
    (classified : List Item) → all has_top_severity (group_findings classified).0 ≡ true
unfolding group_findings
grouping_severity classified = all_top_severity _

fill_buckets_unclassified :
    (is : List Item) (bs : List Bucket) (us : List Item)
    → (fill_buckets is bs us).1 ≡ us ++ keep_if is_unclassified is
unfolding fill_buckets
fill_buckets_unclassified [] bs us = sym (append-nil us)
fill_buckets_unclassified ((f, c) ∷ is) bs us = elim (Option-cases c.kind) [
  | inl e ↦ ground (
    arith,
    fill_buckets_unclassified is bs (us ++ (f, c) ∷ []),
    append_assoc us ((f, c) ∷ []) (keep_if is_unclassified is),
  )
  | inr (k, e) ↦
      ground (arith, fill_buckets_unclassified is (add_to_bucket k (group_key f c) (f, c) bs) us)
]

-- The findings left out of every candidate are those without a kind, in their order.
pub grouping_unclassified :
    (classified : List Item) → (group_findings classified).1 ≡ keep_if is_unclassified classified
unfolding group_findings
grouping_unclassified classified = fill_buckets_unclassified classified [] []

abbrev pub is_at : Kind → String → WorkItemCandidate → Bool
is_at kind key c = nat_beq (number c.kind) (number kind) && c.group_key == key

abbrev bucket_at : Kind → String → Bucket → Bool
bucket_at kind key b = nat_beq (number b.kind) (number kind) && b.key == key

abbrev same_group : Kind → Kind → String → String → Bool
same_group own kind own_key key = nat_beq (number own) (number kind) && own_key == key

bucket_at_same :
    (kind own : Kind) (key own_key : String) (b : Bucket)
    → bucket_at own own_key b ≡ true
    → bucket_at kind key b ≡ same_group own kind own_key key
bucket_at_same kind own key own_key b h =
    let same = (string_eq.agree_iff b.key own_key).0 (ground arith) in
    let number_same : number b.kind ≡ number own = ground arith in cc

bucket_at_other :
    (kind own : Kind) (key own_key : String) (b : Bucket)
    → bucket_at own own_key b ≡ false
    → same_group own kind own_key key ≡ true
    → bucket_at kind key b ≡ false
bucket_at_other kind own key own_key b h e =
    let same = (string_eq.agree_iff own_key key).0 (ground arith) in
    let number_same : number own ≡ number kind = ground arith in cc

count_at-add_to_bucket :
    (kind own : Kind) (key own_key : String) (i : Item) (bs : List Bucket)
    → count (bucket_at kind key) (add_to_bucket own own_key i bs) ≡ (
        if nat_beq (number own) (number kind) && own_key == key
        then max 1 (count (bucket_at kind key) bs)
        else count (bucket_at kind key) bs)
unfolding add_to_bucket
count_at-add_to_bucket kind own key own_key i [] = ground arith
count_at-add_to_bucket kind own key own_key i (b ∷ bs) =
    elim (Bool-cases (bucket_at own own_key b)) [
      | inl e ↦ ground (arith, bucket_at_same kind own key own_key b e)
      | inr e ↦ ground (
        arith,
        bucket_at_other kind own key own_key b e,
        count_at-add_to_bucket kind own key own_key i bs,
      )
    ]

fill_buckets_distinct :
    (kind : Kind) (key : String) (is : List Item) (bs : List Bucket) (us : List Item)
    → count (bucket_at kind key) bs ≤ 1
    → count (bucket_at kind key) (fill_buckets is bs us).0 ≤ 1
unfolding fill_buckets
fill_buckets_distinct kind key [] bs us h = h
fill_buckets_distinct kind key ((f, c) ∷ is) bs us h = elim (Option-cases c.kind) [
  | inl e ↦ ground (arith, fill_buckets_distinct kind key is bs (us ++ (f, c) ∷ []) h)
  | inr (k, e) ↦ ground (
    arith,
    fill_buckets_distinct kind key is (add_to_bucket k (group_key f c) (f, c) bs) us
        (ground (arith, count_at-add_to_bucket kind k key (group_key f c) (f, c) bs)),
  )
]

count_at-candidate_of :
    (kind : Kind) (key : String) (bs : List Bucket)
    → count (is_at kind key) (map candidate_of bs) ≡ count (bucket_at kind key) bs
unfolding candidate_of
count_at-candidate_of kind key [] = refl
count_at-candidate_of kind key (b ∷ bs) = ground (arith, count_at-candidate_of kind key bs)

-- No two candidates have the same kind and the same group key: each group is one session.
pub grouping_distinct :
    (kind : Kind) (key : String) (classified : List Item)
    → count (is_at kind key) (group_findings classified).0 ≤ 1
unfolding group_findings
grouping_distinct kind key classified =
    let filled = fill_buckets classified [] [] in
    omega (
      arith,
      count_at-candidate_of kind key (sort_by bucket_lt filled.0),
      sum_by-sort_by bucket_lt (λ b. if bucket_at kind key b then 1 else 0) filled.0,
      fill_buckets_distinct kind key classified [] [] (omega arith),
    )
