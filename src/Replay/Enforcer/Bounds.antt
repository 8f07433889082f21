-- ===== src/Replay/Enforcer/Bounds.antt =====
-- The size of the cache and the sequence numbers.
use qcg_task.Prelude.{
  ℕ, suc, ◌+◌, ◌-◌, ◌/◌, ◌≤◌, ◌<◌, String, ◌≡◌, refl, inl, inr, Bool, true, false, Option, none,
  some, List, [], ◌∷◌, arith, ap, ◌∙◌, ◌==◌, eq_iff, eq_refl, length, ltb, member, Bool-cases,
}
use qcg_task.Prelude.Dict.{Dict, lookup, insert, remove_if}
use qcg_task.Prelude.Int.{ℤ, ltb_ℤ}
use qcg_task.Replay.Enforcer.Defs.{
  CacheEntry, ReplayEnforcer, sort_by_issue, insert_by_issue, first_keys, batch, drop_expired,
  drop_oldest, shrink, evict_if_needed, submit, submit_all, Submission, enter, process_new,
  issue_time, is_expired,
}

pub length-insert :
    (k : String) (v : CacheEntry) (d : Dict CacheEntry) → length (insert k v d) ≤ length d + 1
unfolding insert
length-insert k v [] = omega arith
length-insert k v ((j, w) ∷ d) = ground (arith, length-insert k v d)

pub length-remove_if :
    (p : String → CacheEntry → Bool) (d : Dict CacheEntry) → length (remove_if p d) ≤ length d
unfolding remove_if
length-remove_if p [] = omega arith
length-remove_if p ((k, v) ∷ d) = ground (arith, length-remove_if p d)

-- An entry that the test picks is gone.
remove_if_fewer :
    (p : String → CacheEntry → Bool) (k : String) (d : Dict CacheEntry) (v : CacheEntry)
    → lookup k d ≡ some v
    → ((w : CacheEntry) → p k w ≡ true)
    → length (remove_if p d) < length d
unfolding lookup remove_if
remove_if_fewer p k [] v found picked = cc
remove_if_fewer p k ((j, w) ∷ d) v found picked = ground (
  arith,
  eq_iff j k,
  picked w,
  length-remove_if p d,
  λ (q : lookup k d ≡ some v). remove_if_fewer p k d v q picked,
)

insert_after :
    (x y : String × CacheEntry) (d : Dict CacheEntry)
    → ltb_ℤ y.1.issued x.1.issued ≡ true
    → insert_by_issue x (y ∷ d) ≡ y ∷ insert_by_issue x d
unfolding insert_by_issue
insert_after x y d h = ground (arith, h)

insert_before :
    (x y : String × CacheEntry) (d : Dict CacheEntry)
    → ltb_ℤ y.1.issued x.1.issued ≡ false
    → insert_by_issue x (y ∷ d) ≡ x ∷ y ∷ d
unfolding insert_by_issue
insert_before x y d h = ground (arith, h)

lookup-cons :
    (k j : String) (u : CacheEntry) (d : Dict CacheEntry) (w : CacheEntry)
    → lookup k d ≡ some w
    → (v : CacheEntry) × (lookup k ((j, u) ∷ d) ≡ some v)
unfolding lookup
lookup-cons k j u d w found = elim (Bool-cases (j == k)) [
  | inl same ↦ (u, rw same refl)
  | inr other ↦ (w, rw other found)
]

-- The first item of the sorted items is one of the items.
pub sort_by_issue_first :
    (x : String × CacheEntry) (d : Dict CacheEntry)
    → (k : String) × (v : CacheEntry) × (rest : Dict CacheEntry) × (sort_by_issue (x ∷ d)
        ≡ (k, v) ∷ rest)
      × ((w : CacheEntry) × (lookup k (x ∷ d) ≡ some w))
unfolding sort_by_issue lookup
sort_by_issue_first (k, v) [] = (k, v, [], refl, (v, ground (arith, eq_refl k)))
sort_by_issue_first (j, u) (y ∷ d) =
    let (k, v, rest, sorted, (w, found)) = sort_by_issue_first y d in
    elim (Bool-cases (ltb_ℤ v.issued u.issued)) [
      | inl later ↦ (
        k,
        v,
        insert_by_issue (j, u) rest,
        ap (insert_by_issue (j, u)) sorted ∙ insert_after (j, u) (k, v) rest later,
        lookup-cons k j u (y ∷ d) w found,
      )
      | inr first ↦ (
        j,
        u,
        (k, v) ∷ rest,
        ap (insert_by_issue (j, u)) sorted ∙ insert_before (j, u) (k, v) rest first,
        (u, ground (arith, eq_refl j)),
      )
    ]

pub batch_positive : (threshold : ℕ) → (n : ℕ) × (batch threshold ≡ suc n)
batch_positive threshold = elim (Bool-cases (ltb 1 (threshold / 10))) [
  | inl many ↦ (threshold / 10 - 1, ground arith)
  | inr few ↦ (0, ground arith)
]

drop_oldest_fewer :
    (n : ℕ) (x : String × CacheEntry) (d : Dict CacheEntry)
    → length (drop_oldest (suc n) (x ∷ d)) < length (x ∷ d)
unfolding drop_oldest
drop_oldest_fewer n x d =
    let (k, v, rest, sorted, (w, found)) = sort_by_issue_first x d in
    remove_if_fewer (λ j u. member j (first_keys (suc n) (sort_by_issue (x ∷ d)))) k (x ∷ d) w found
      (λ u. rw sorted (unfold first_keys in ground (arith, eq_refl k)))

shrink_bound :
    (threshold : ℕ) (d : Dict CacheEntry)
    → 0 < threshold
    → length d ≤ threshold
    → length (shrink threshold d) < threshold
shrink_bound threshold [] some_room le = ground arith
shrink_bound threshold (x ∷ d) some_room le =
    let (n, e) = batch_positive threshold in rw e (ground (arith, drop_oldest_fewer n x d))

drop_expired-le : (ttl now : ℤ) (d : Dict CacheEntry) → length (drop_expired ttl now d) ≤ length d
unfolding drop_expired
drop_expired-le ttl now d = length-remove_if (λ k v. is_expired ttl now v.issued) d

evict_if_needed-bound :
    (now : ℤ) (e : ReplayEnforcer)
    → 0 < e.threshold
    → length e.cache ≤ e.threshold
    → length (evict_if_needed now e).cache < e.threshold
unfolding evict_if_needed
evict_if_needed-bound now e some_room le = elim (Bool-cases (ltb (length e.cache) e.threshold)) [
  | inl less ↦ rw less (ground arith)
  | inr full ↦ rw full (
      shrink_bound e.threshold (drop_expired e.ttl now e.cache) some_room
        (omega (arith, drop_expired-le e.ttl now e.cache)))
]

-- The cache has room for one entry more.
abbrev pub HasRoom : ReplayEnforcer → Type 0
HasRoom e = length e.cache < e.threshold

evict_if_needed-threshold :
    (now : ℤ) (e : ReplayEnforcer) → (evict_if_needed now e).threshold ≡ e.threshold
unfolding evict_if_needed
evict_if_needed-threshold now e = ground arith

process_new-HasRoom :
    (now : ℤ) (id : String) (t : ℤ) (o : Option CacheEntry) (e : ReplayEnforcer)
    → HasRoom e
    → HasRoom (process_new now id t o e).1
process_new-HasRoom now id t (some v) e room = room
process_new-HasRoom now id t none e room =
    let entered = enter id t e in
    let size =
      length-insert id (record { sequence = e.sequence_counter + 1; issued = t }) e.cache in
    omega (
      arith,
      evict_if_needed-threshold now entered,
      evict_if_needed-bound now entered (omega arith) (omega (arith, size)),
    )

submit-HasRoom :
    (s : Submission) (e : ReplayEnforcer)
    → HasRoom e
    → HasRoom (submit s.now s.artifact_id s.issued_at e).1
unfolding submit
submit-HasRoom s e room =
    elim (Bool-cases (is_expired e.ttl s.now (issue_time s.now s.issued_at))) [
      | inl late ↦ rw late room
      | inr fresh ↦ rw fresh (
          process_new-HasRoom s.now s.artifact_id (issue_time s.now s.issued_at)
            (lookup s.artifact_id e.cache) e room)
    ]

-- A cache below its threshold stays below it, after any submissions.
pub submit_all-HasRoom :
    (calls : List Submission) (e : ReplayEnforcer) → HasRoom e → HasRoom (submit_all calls e)
unfolding submit_all
submit_all-HasRoom [] e room = room
submit_all-HasRoom (s ∷ rest) e room =
    submit_all-HasRoom rest (submit s.now s.artifact_id s.issued_at e).1 (submit-HasRoom s e room)
