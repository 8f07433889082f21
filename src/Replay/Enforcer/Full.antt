-- ===== src/Replay/Enforcer/Full.antt =====
-- A full cache without an expired entry: the artifacts that were issued first are dropped.
use qcg_task.Prelude.{
  ℕ, suc, ◌+◌, String, ◌≡◌, refl, ap, ◌∙◌, inl, inr, true, false, Option, none, some, [], ◌∷◌, ◌++◌,
  arith, eq_refl, length, length-append, ltb, leb, member, Bool-cases, Option-cases, All,
  All-append,
}
use qcg_task.Prelude.Dict.{Dict, lookup, remove_if, lookup-remove_if, insert_new}
use qcg_task.Prelude.Int.{ℤ, ltb_ℤ}
use qcg_task.Replay.Enforcer.Defs.{
  CacheEntry, ReplayEnforcer, accepted, sort_by_issue, insert_by_issue, first_keys, drop_expired,
  drop_oldest, evict_if_needed, submit, enter, issue_time, is_expired,
}
use qcg_task.Replay.Enforcer.Bounds.{batch_positive}

-- Every other entry was issued at the same time or later.
abbrev pub NotBefore : ℤ → Dict CacheEntry → Type 0
NotBefore t d = All (λ (x : String × CacheEntry). ltb_ℤ x.1.issued t ≡ false) d

insert_by_issue-NotBefore :
    (t : ℤ) (x : String × CacheEntry) (d : Dict CacheEntry)
    → ltb_ℤ x.1.issued t ≡ false
    → NotBefore t d
    → NotBefore t (insert_by_issue x d)
unfolding insert_by_issue
insert_by_issue-NotBefore t x [] h all = (h, tt)
insert_by_issue-NotBefore t x (y ∷ d) h all = elim (Bool-cases (ltb_ℤ y.1.issued x.1.issued)) [
  | inl later ↦ rw later (all.0, insert_by_issue-NotBefore t x d h all.1)
  | inr first ↦ rw first (h, all)
]

sort_by_issue-NotBefore :
    (t : ℤ) (d : Dict CacheEntry) → NotBefore t d → NotBefore t (sort_by_issue d)
unfolding sort_by_issue
sort_by_issue-NotBefore t [] all = all
sort_by_issue-NotBefore t (x ∷ d) all =
    insert_by_issue-NotBefore t x (sort_by_issue d) all.0 (sort_by_issue-NotBefore t d all.1)

insert_by_issue_first :
    (x : String × CacheEntry) (d : Dict CacheEntry)
    → NotBefore x.1.issued d
    → insert_by_issue x d ≡ x ∷ d
unfolding insert_by_issue
insert_by_issue_first x [] all = refl
insert_by_issue_first x (y ∷ d) all = rw all.0 refl

-- The entry that was issued first leaves.
drop_oldest_first :
    (n : ℕ) (k : String) (v : CacheEntry) (d : Dict CacheEntry)
    → NotBefore v.issued d
    → lookup k (drop_oldest (suc n) ((k, v) ∷ d)) ≡ none
unfolding drop_oldest
drop_oldest_first n k v d all = elim (Option-cases (lookup k (drop_oldest (suc n) ((k, v) ∷ d)))) [
  | inl gone ↦ gone
  | inr (w, kept) ↦
      let sorted : sort_by_issue ((k, v) ∷ d) ≡ (k, v) ∷ sort_by_issue d =
        insert_by_issue_first (k, v) (sort_by_issue d) (sort_by_issue-NotBefore v.issued d all) in
      let unpicked =
        lookup-remove_if (λ j u. member j (first_keys (suc n) (sort_by_issue ((k, v) ∷ d)))) k w
          ((k, v) ∷ d) kept in
      let picked : member k (first_keys (suc n) (sort_by_issue ((k, v) ∷ d))) ≡ true =
        rw sorted (unfold first_keys in ground (arith, eq_refl k)) in
      absurd (cc (picked, unpicked))
]

-- No entry is older than the time to live.
abbrev pub AreLive : ℤ → ℤ → Dict CacheEntry → Type 0
AreLive ttl now d = All (λ (x : String × CacheEntry). is_expired ttl now x.1.issued ≡ false) d

drop_expired_live :
    (ttl now : ℤ) (d : Dict CacheEntry) → AreLive ttl now d → drop_expired ttl now d ≡ d
unfolding drop_expired remove_if
drop_expired_live ttl now [] live = refl
drop_expired_live ttl now (x ∷ d) live = rw live.0 (ap (◌∷◌ x) (drop_expired_live ttl now d live.1))

evicted_first :
    (now : ℤ) (k : String) (v : CacheEntry) (d : Dict CacheEntry) (e : ReplayEnforcer)
    → e.cache ≡ (k, v) ∷ d
    → e.threshold ≡ length e.cache
    → NotBefore v.issued d
    → AreLive e.ttl now e.cache
    → lookup k (evict_if_needed now e).cache ≡ none
unfolding evict_if_needed
evicted_first now k v d e shape full all live =
    let (n, some_batch) = batch_positive e.threshold in
    let is_full : ltb (length e.cache) e.threshold ≡ false = ground arith in
    let still_full : leb e.threshold (length e.cache) ≡ true = ground arith in
    rw (is_full, drop_expired_live e.ttl now e.cache live, still_full, shape, some_batch)
      (drop_oldest_first n k v d all)

fresh_accepted :
    (now : ℤ) (k : String) (issued : Option ℤ) (e : ReplayEnforcer)
    → lookup k e.cache ≡ none
    → is_expired e.ttl now (issue_time now issued) ≡ false
    → (submit now k issued e).0.status ≡ accepted
unfolding submit
fresh_accepted now k issued e new live = rw (live, new) refl

evict_if_needed-ttl : (now : ℤ) (e : ReplayEnforcer) → (evict_if_needed now e).ttl ≡ e.ttl
unfolding evict_if_needed
evict_if_needed-ttl now e = ground arith

-- A cache that holds one entry fewer than the threshold, none of them expired, the artifact `k` in
-- the first place and none issued before it: a new artifact that is not expired and was not issued
-- before `k` is accepted, and `k` is then accepted a second time whenever its time of issue lies
-- within the time to live.
pub full_cache_forgets :
    (now t : ℤ) (id k : String) (v : CacheEntry) (d : Dict CacheEntry) (e : ReplayEnforcer)
    → e.cache ≡ (k, v) ∷ d
    → e.threshold ≡ length e.cache + 1
    → NotBefore v.issued d
    → AreLive e.ttl now e.cache
    → lookup id e.cache ≡ none
    → ltb_ℤ t v.issued ≡ false
    → is_expired e.ttl now t ≡ false
    → let after = (submit now id (some t) e).1 in
      ((submit now id (some t) e).0.status ≡ accepted)
      × ((later : ℤ) (issued : Option ℤ)
          → is_expired e.ttl later (issue_time later issued) ≡ false
          → (submit later k issued after).0.status ≡ accepted)
unfolding submit
full_cache_forgets now t id k v d e shape full all live new not_before fresh =
    let x : CacheEntry = record { sequence = e.sequence_counter + 1; issued = t } in
    let entered = enter id t e in
    let grown : entered.cache ≡ e.cache ++ (id, x) ∷ [] = insert_new id x e.cache new in
    let placed : entered.cache ≡ (k, v) ∷ d ++ (id, x) ∷ [] = cc (grown, shape) in
    let one_more : length entered.cache ≡ length e.cache + 1 =
      ap length grown ∙ length-append e.cache ((id, x) ∷ []) in
    let all_later : NotBefore v.issued (d ++ (id, x) ∷ []) =
      All-append (λ (y : String × CacheEntry). ltb_ℤ y.1.issued v.issued ≡ false) d ((id, x) ∷ [])
        all (not_before, tt) in
    let all_live : AreLive e.ttl now entered.cache = rw grown (
      All-append (λ (y : String × CacheEntry). is_expired e.ttl now y.1.issued ≡ false) e.cache
        ((id, x) ∷ []) live (fresh, tt)) in
    let gone =
      evicted_first now k v (d ++ (id, x) ∷ []) entered placed (omega (arith, one_more, full))
        all_later all_live in
    let after : (submit now id (some t) e).1 ≡ evict_if_needed now entered = rw (fresh, new) refl in
    (
      fresh_accepted now id (some t) e new fresh,
      λ later issued within. rw after (
          fresh_accepted later k issued (evict_if_needed now entered) gone
            (rw (evict_if_needed-ttl now entered) within)),
    )
