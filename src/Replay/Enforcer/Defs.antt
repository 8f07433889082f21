-- ===== src/Replay/Enforcer/Defs.antt =====
-- `ReplayEnforcer`. The monotonic clock `now` is an argument, and the constant
-- `_EVICTION_THRESHOLD` a field. The reasons of the decisions are left out.
use qcg_task.Prelude.{
  ℕ, zero, suc, ◌+◌, ◌/◌, String, Bool, Option, none, some, List, [], ◌∷◌, if◌then◌else◌, length,
  ltb, leb, member,
}
use qcg_task.Prelude.Dict.{Dict, lookup, insert, remove_if}
use qcg_task.Prelude.Int.{ℤ, ◌-ℤ◌, ltb_ℤ}

pub data Outcome : Type 0 where
  accepted : Outcome
  rejected_duplicate : Outcome
  rejected_stale : Outcome

pub record ReplayDecision : Type 0 where
  pub artifact_id : String
  pub sequence_id : ℕ
  pub status : Outcome

pub record CacheEntry : Type 0 where
  pub sequence : ℕ
  pub issued : ℤ

pub record ReplayEnforcer : Type 0 where
  pub ttl : ℤ
  pub threshold : ℕ
  pub sequence_counter : ℕ
  pub cache : Dict CacheEntry

-- `ReplayEnforcer(ttl_seconds)`
abbrev pub new_enforcer : ℤ → ReplayEnforcer
new_enforcer ttl = record { ttl = ttl; threshold = 10000; sequence_counter = 0; cache = [] }

abbrev pub decide : String → ℕ → Outcome → ReplayDecision
decide artifact_id seq status = record {
  artifact_id = artifact_id;
  sequence_id = seq;
  status = status;
}

-- `now - issued > self._ttl`
abbrev pub is_expired : ℤ → ℤ → ℤ → Bool
is_expired ttl now issued = ltb_ℤ ttl (now -ℤ issued)

-- `sorted(self._cache.items(), key=lambda kv: kv[1][1])`, which is stable
unfoldable pub insert_by_issue : String × CacheEntry → Dict CacheEntry → Dict CacheEntry
insert_by_issue x [] = x ∷ []
insert_by_issue x (y ∷ ys) =
    if ltb_ℤ y.1.issued x.1.issued then y ∷ insert_by_issue x ys else x ∷ y ∷ ys

unfoldable pub sort_by_issue : Dict CacheEntry → Dict CacheEntry
unfolding insert_by_issue
sort_by_issue [] = []
sort_by_issue (x ∷ xs) = insert_by_issue x (sort_by_issue xs)

-- the keys of the first `n` items
unfoldable pub first_keys : ℕ → Dict CacheEntry → List String
first_keys zero d = []
first_keys (suc n) [] = []
first_keys (suc n) ((k, v) ∷ d) = k ∷ first_keys n d

-- `max(1, _EVICTION_THRESHOLD // 10)`
abbrev pub batch : ℕ → ℕ
batch threshold = if ltb 1 (threshold / 10) then threshold / 10 else 1

unfoldable pub drop_expired : ℤ → ℤ → Dict CacheEntry → Dict CacheEntry
drop_expired ttl now d = remove_if (λ k v. is_expired ttl now v.issued) d

unfoldable pub drop_oldest : ℕ → Dict CacheEntry → Dict CacheEntry
unfolding sort_by_issue first_keys
drop_oldest n d = remove_if (λ k v. member k (first_keys n (sort_by_issue d))) d

abbrev pub shrink : ℕ → Dict CacheEntry → Dict CacheEntry
shrink threshold d = if leb threshold (length d) then drop_oldest (batch threshold) d else d

unfoldable pub evict_if_needed : ℤ → ReplayEnforcer → ReplayEnforcer
evict_if_needed now e =
    if ltb (length e.cache) e.threshold
    then e
    else record e { cache = shrink e.threshold (drop_expired e.ttl now e.cache) }

-- `if issued_at is None: issued_at = now`
abbrev pub issue_time : ℤ → Option ℤ → ℤ
issue_time now none = now
issue_time now (some t) = t

-- what a new artifact is entered as
abbrev pub enter : String → ℤ → ReplayEnforcer → ReplayEnforcer
enter artifact_id issued_at e = record e {
  sequence_counter = e.sequence_counter + 1;
  cache =
      insert artifact_id (record { sequence = e.sequence_counter + 1; issued = issued_at }) e.cache;
}

-- the part of `submit` under the lock
abbrev pub process_new :
    ℤ → String → ℤ → Option CacheEntry → ReplayEnforcer → ReplayDecision × ReplayEnforcer
process_new now artifact_id issued_at (some v) e =
    (decide artifact_id v.sequence rejected_duplicate, e)
process_new now artifact_id issued_at none e = (
  decide artifact_id (e.sequence_counter + 1) accepted,
  evict_if_needed now (enter artifact_id issued_at e),
)

unfoldable pub submit : ℤ → String → Option ℤ → ReplayEnforcer → ReplayDecision × ReplayEnforcer
submit now artifact_id issued e =
    let issued_at = issue_time now issued in
    if is_expired e.ttl now issued_at
    then (decide artifact_id 0 rejected_stale, e)
    else process_new now artifact_id issued_at (lookup artifact_id e.cache) e

-- A call of `submit`, and the enforcer after a sequence of calls.
pub record Submission : Type 0 where
  pub now : ℤ
  pub artifact_id : String
  pub issued_at : Option ℤ

unfoldable pub submit_all : List Submission → ReplayEnforcer → ReplayEnforcer
submit_all [] e = e
submit_all (s ∷ rest) e = submit_all rest (submit s.now s.artifact_id s.issued_at e).1

unfoldable pub reset : ReplayEnforcer → ReplayEnforcer
reset e = record e { sequence_counter = 0; cache = [] }

unfoldable pub sequence_count : ReplayEnforcer → ℕ
sequence_count e = e.sequence_counter
