-- ===== src/Control/Cache.antt =====
-- APP/app_control_can.c: the cache of answered requests.
use teep_j1939_patent.Base.{ℕ, ◌+◌, ◌%◌, List, [], ◌∷◌, get_or, set, Bool, true, false, not, ◌||◌}
use teep_j1939_patent.Base.{ltb, ◌!=◌, if◌then◌else◌, u8, u32, sub32}
use teep_j1939_patent.Control.Defs.{Control, CacheEntry, bytes_equal}
use teep_j1939_patent.Control.Defs.{dedup_window_ms, dedup_cache_capacity}

-- `App_Control_Cache_Result_t`, with the cached response of a replay
pub data CacheResult : Type 0 where
  cache_miss : CacheResult
  cache_replay : List ℕ → CacheResult
  cache_conflict : CacheResult

abbrev pub cache_expired : ℕ → CacheEntry → Bool
cache_expired now_ms e = ltb dedup_window_ms (sub32 now_ms e.timestamp_ms)

abbrev pub is_other : ℕ → List ℕ → CacheEntry → Bool
is_other source_address request e =
    (e.source_address != source_address) || (get_or e.request 1 0 != get_or request 1 0)

-- The loop of `prv_cache_lookup`, which also marks the entries that have expired
unfoldable pub cache_lookup_loop : ℕ → List ℕ → ℕ → List CacheEntry → CacheResult × List CacheEntry
cache_lookup_loop source_address request now_ms [] = (cache_miss, [])
cache_lookup_loop source_address request now_ms (e ∷ es) =
    let rest = cache_lookup_loop source_address request now_ms es in
    if not e.valid
    then (rest.0, e ∷ rest.1)
    else if cache_expired now_ms e
    then (rest.0, record e { valid = false } ∷ rest.1)
    else if is_other source_address request e
    then (rest.0, e ∷ rest.1)
    else if bytes_equal e.request request
    then (cache_replay e.response, e ∷ es)
    else (cache_conflict, e ∷ es)

-- The counter of the result
unfoldable pub count_result : CacheResult → Control → Control
count_result cache_miss c = c
count_result (cache_replay _) c = record c {
  stats = record c.stats { duplicate_replays = u32 (c.stats.duplicate_replays + 1) };
}
count_result cache_conflict c = record c {
  stats = record c.stats { duplicate_conflicts = u32 (c.stats.duplicate_conflicts + 1) };
}

-- `prv_cache_lookup`
unfoldable pub cache_lookup : ℕ → List ℕ → ℕ → Control → CacheResult × Control
cache_lookup source_address request now_ms c =
    let found = cache_lookup_loop source_address request now_ms c.cache in
    (found.0, count_result found.0 (record c { cache = found.1 }))

-- `prv_cache_store`
unfoldable pub cache_store : ℕ → List ℕ → List ℕ → ℕ → Control → Control
cache_store source_address request response now_ms c = record c {
  cache = set c.cache c.cache_next record {
    valid = true;
    source_address = source_address;
    request = request;
    response = response;
    timestamp_ms = now_ms;
  };
  cache_next = u8 ((c.cache_next + 1) % dedup_cache_capacity);
}
