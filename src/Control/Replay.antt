-- ===== src/Control/Replay.antt =====
-- APP/app_control_can.c: a request that is repeated is answered from the cache and not executed
-- again.
use teep_j1939_patent.Base.{ℕ, zero, suc, ◌≤◌, ◌<◌, ◌≡◌, refl, ◌∙◌, ap, ap₂, subst, arith}
use teep_j1939_patent.Base.{List, [], ◌∷◌, get_or, set, length, All, true, false}
use teep_j1939_patent.Base.{sub32, Bool-cases, inl, inr}
use teep_j1939_patent.Link.{LinkStatus, link_ok, link_busy, link_error}
use teep_j1939_patent.Control.Defs.{Control, CacheEntry, Node, bytes_equal, dedup_window_ms}
use teep_j1939_patent.Control.Queue.{
  transmit_response, defer_response, count_refused, send_response,
}
use teep_j1939_patent.Control.Cache.{CacheResult, cache_miss, cache_replay, cache_conflict}
use teep_j1939_patent.Control.Cache.{cache_expired, is_other, cache_lookup_loop, count_result}
use teep_j1939_patent.Control.Cache.{cache_lookup, cache_store}
use teep_j1939_patent.Control.Backend.{Backend}
use teep_j1939_patent.Control.Frames.{
  execute, send_now, handle_fresh, handle_looked_up, handle_request,
}

pub bytes_equal_refl : (bs : List ℕ) → bytes_equal bs bs ≡ true
unfolding bytes_equal
bytes_equal_refl [] = refl
bytes_equal_refl (b ∷ bs) = ground (arith, bytes_equal_refl bs)

-- No valid entry is of this source and sequence.
abbrev pub AllOther : ℕ → List ℕ → List CacheEntry → Type 0
AllOther source request es = All (λ e. e.valid ≡ true → is_other source request e ≡ true) es

lookup-AllOther :
    (source : ℕ) (request : List ℕ) (now_ms : ℕ) (es : List CacheEntry)
    → (cache_lookup_loop source request now_ms es).0 ≡ cache_miss
    → AllOther source request (cache_lookup_loop source request now_ms es).1
unfolding cache_lookup_loop
lookup-AllOther source request now_ms [] miss = tt
lookup-AllOther source request now_ms (e ∷ es) miss = elim (Bool-cases e.valid) [
  | inr off ↦
      rw (off, cache_lookup_loop)
        ((λ on. absurd (grind arith)), lookup-AllOther source request now_ms es (grind arith))
  | inl on ↦ elim (Bool-cases (cache_expired now_ms e)) [
    | inl old ↦
        rw (on, old, cache_lookup_loop)
          ((λ h. absurd (grind arith)), lookup-AllOther source request now_ms es (grind arith))
    | inr young ↦ elim (Bool-cases (is_other source request e)) [
      | inl other ↦
          rw (on, young, other, cache_lookup_loop)
            ((λ h. other), lookup-AllOther source request now_ms es (grind arith))
      | inr same ↦ absurd (grind arith)
    ]
  ]
]

-- Among entries of other requests, the one entry of this request is found.
lookup-set :
    (source : ℕ) (request : List ℕ) (now_ms : ℕ) (es : List CacheEntry) (i : ℕ) (e : CacheEntry)
    → AllOther source request es
    → i < length es
    → e.valid ≡ true
    → e.source_address ≡ source
    → e.request ≡ request
    → cache_expired now_ms e ≡ false
    → (cache_lookup_loop source request now_ms (set es i e)).0 ≡ cache_replay e.response
unfolding cache_lookup_loop
lookup-set source request now_ms [] i e all below on from same young = absurd (omega arith)
lookup-set source request now_ms (x ∷ es) zero e all below on from same young =
    let here : is_other source request e ≡ false =
      subst (λ r. is_other source r e ≡ false) same (ground (arith, from)) in
    let equal : bytes_equal e.request request ≡ true =
      subst (λ r. bytes_equal e.request r ≡ true) same (bytes_equal_refl e.request) in
    rw (on, young, here, equal, cache_lookup_loop) refl
lookup-set source request now_ms (x ∷ es) (suc i) e all below on from same young =
    let rest = lookup-set source request now_ms es i e all.1 (omega arith) on from same young in
    elim (Bool-cases x.valid) [
      | inr off ↦ rw (off, cache_lookup_loop) rest
      | inl valid ↦ elim (Bool-cases (cache_expired now_ms x)) [
        | inl old ↦ rw (valid, old, cache_lookup_loop) rest
        | inr still ↦ let other = all.0 valid in rw (valid, still, other, cache_lookup_loop) rest
      ]
    ]

defer_response-cache :
    (response : List ℕ) (now_ms : ℕ) (c : Control)
    → (defer_response response now_ms c).cache ≡ c.cache
unfolding defer_response
defer_response-cache response now_ms c = ground arith

count_refused-cache : (status : LinkStatus) (c : Control) → (count_refused status c).cache ≡ c.cache
unfolding count_refused
count_refused-cache link_ok c = refl
count_refused-cache link_busy c = refl
count_refused-cache link_error c = refl

send_response-cache :
    {S : Type 0} (response : List ℕ) (now_ms : ℕ) (n : Node S)
    → ((send_response response now_ms n).control.cache ≡ n.control.cache)
      × ((send_response response now_ms n).app ≡ n.app)
unfolding send_response
send_response-cache response now_ms n =
    let c = n.control in
    let status = (transmit_response response n.can).0 in
    let counted = count_refused-cache status c in
    let kept = defer_response-cache response now_ms c in
    let waits = defer_response-cache response now_ms (count_refused status c) in
    (grind (arith, counted, kept, waits), ground arith)

lookup-length :
    (source : ℕ) (request : List ℕ) (now_ms : ℕ) (es : List CacheEntry)
    → length (cache_lookup_loop source request now_ms es).1 ≡ length es
unfolding cache_lookup_loop
lookup-length source request now_ms [] = refl
lookup-length source request now_ms (e ∷ es) =
    let rest = lookup-length source request now_ms es in ground (arith, rest)

count_result-same :
    (r : CacheResult) (c : Control)
    → ((count_result r c).cache ≡ c.cache) × ((count_result r c).cache_next ≡ c.cache_next)
unfolding count_result
count_result-same cache_miss c = (refl, refl)
count_result-same (cache_replay response) c = (refl, refl)
count_result-same cache_conflict c = (refl, refl)

module _ {S : Type 0} (b : Backend S) where
  pub send_now-cache :
      (response : List ℕ) (n : Node S)
      → ((send_now b response n).control.cache ≡ n.control.cache)
        × ((send_now b response n).app ≡ (b.time_ms n.app).1)
  unfolding send_now
  send_now-cache response n =
      send_response-cache response (b.time_ms n.app).0 (record n { app = (b.time_ms n.app).1 })

  -- The response that a request gets when it is executed, and the state after that
  abbrev pub executed : List ℕ → Node S → List ℕ × S
  executed request n =
      execute b (get_or request 0 0) (get_or request 1 0) request (b.time_ms n.app).1

  -- The time at which the request is handled, and at which it is handled again
  abbrev pub first_ms : Node S → ℕ
  first_ms n = (b.time_ms n.app).0

  abbrev pub again_at : ℕ → List ℕ → Node S → ℕ × S
  again_at source request n = b.time_ms (handle_request b source request n).app

  -- What the first handling leaves before it sends
  abbrev remembered : ℕ → List ℕ → Node S → Node S
  remembered source request n = record {
    control =
        cache_store source request (executed request n).0 (first_ms n)
          (cache_lookup source request (first_ms n) n.control).1;
    can = n.can;
    app = (executed request n).1;
  }

  handle_request-fresh :
      (source : ℕ) (request : List ℕ) (n : Node S)
      → (cache_lookup source request (first_ms n) n.control).0 ≡ cache_miss
      → handle_request b source request n
        ≡ send_now b (executed request n).0 (remembered source request n)
  unfolding handle_request handle_looked_up handle_fresh
  handle_request-fresh source request n miss =
      ap
        (λ r. handle_looked_up b r source request (first_ms n) (record {
          control = (cache_lookup source request (first_ms n) n.control).1;
          can = n.can;
          app = (b.time_ms n.app).1;
        }))
        miss

  -- The second lookup finds what the first handling has stored.
  stored-found :
      (source : ℕ) (request response : List ℕ) (now_ms later_ms : ℕ) (c : Control)
      → c.cache_next < length c.cache
      → (cache_lookup source request now_ms c).0 ≡ cache_miss
      → sub32 later_ms now_ms ≤ dedup_window_ms
      → (cache_lookup_loop source request later_ms
          (cache_store source request response now_ms
            (cache_lookup source request now_ms c).1).cache).0
        ≡ cache_replay response
  unfolding cache_lookup cache_store
  stored-found source request response now_ms later_ms c room miss soon =
      let found = cache_lookup_loop source request now_ms c.cache in
      let e : CacheEntry = record {
        valid = true;
        source_address = source;
        request = request;
        response = response;
        timestamp_ms = now_ms;
      } in
      let same = count_result-same found.0 (record c { cache = found.1 }) in
      let all = lookup-AllOther source request now_ms c.cache miss in
      let size = lookup-length source request now_ms c.cache in
      ap₂ (λ es i. (cache_lookup_loop source request later_ms (set es i e)).0) same.0 same.1
      ∙ lookup-set source request later_ms found.1 c.cache_next e all (omega (arith, size, room))
          refl refl refl (ground (arith, soon))

  -- A request that the cache does not know is executed, once: where the same source sends it again
  -- within the window and no other frame comes between, it gets the response of the first time, and
  -- the state of the program changes by the readings of the clock only.
  pub handle_request-replay :
      (source : ℕ) (request : List ℕ) (n : Node S)
      → n.control.cache_next < length n.control.cache
      → (cache_lookup source request (first_ms n) n.control).0 ≡ cache_miss
      → sub32 (again_at source request n).0 (first_ms n) ≤ dedup_window_ms
      → ((handle_request b source request n).app ≡ (b.time_ms (executed request n).1).1)
        × (handle_request b source request (handle_request b source request n)
            ≡ send_now b (executed request n).0 (record {
              control =
                  (cache_lookup source request
                    (again_at source request n).0
                    (handle_request b source request n).control).1;
              can = (handle_request b source request n).can;
              app = (again_at source request n).1;
            }))
  unfolding handle_request handle_looked_up cache_lookup
  handle_request-replay source request n room miss soon =
      let response = (executed request n).0 in
      let first = handle_request b source request n in
      let e = handle_request-fresh source request n miss in
      let kept = send_now-cache response (remembered source request n) in
      let later = (again_at source request n).0 in
      let cache : first.control.cache ≡ (remembered source request n).control.cache =
        ap (λ (m : Node S). m.control.cache) e ∙ kept.0 in
      let found : (cache_lookup source request later first.control).0 ≡ cache_replay response =
        ap (λ es. (cache_lookup_loop source request later es).0) cache
        ∙ stored-found source request response (first_ms n) later n.control room miss soon in
      (
        ap (λ (m : Node S). m.app) e ∙ kept.1,
        ap
            (λ r. handle_looked_up b r source request later (record {
              control = (cache_lookup source request later first.control).1;
              can = first.can;
              app = (again_at source request n).1;
            }))
            found,
      )
