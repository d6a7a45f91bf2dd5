-- ===== src/Dns/Stale.antt =====
-- DNSCache::get_inner on an entry that is out of date, and the times that DNSCache::put sets.
use mathlib.Core.Path.{subst}
use demo_submodule.Prelude.{
  update, ℕ, ◌+◌, ◌^◌, ◌≤◌, ◌<◌, ◌≡◌, refl, ◌∙◌, ap, Bool, true, false, Option, none, some, arith,
  inl, inr, if◌then◌else◌, Bool-cases,
}
use demo_submodule.Lru.{Handle, LruCache, find, ref, unref}
use demo_submodule.Lru.Counts.{heap-ref, heap-unref}
use demo_submodule.Lru.Get.{get_found}
use demo_submodule.Dns.{
  DnsCacheValue, GetType, ttl, confident, is_stale, postpone, check, new_value, get_inner,
  int64_max,
}

-- The time from which an entry is out of date.
abbrev pub due : GetType → DnsCacheValue → ℕ
due ttl value = value.expire_time
due confident value = value.confident_time

-- The entry of a key, with its handle.
pub record Holds {K : Type 0} (same : K → K → Bool) (k : K) (e : ℕ) (h : Handle K DnsCacheValue)
    (c : LruCache K DnsCacheValue) : Type 0 where
  pub bound : find same k c.cache_map ≡ some e
  pub there : c.heap e ≡ some h

is_stale-postpone :
    (type : GetType) (now : ℕ) (value : DnsCacheValue)
    → now ≤ due type value + 10
    → is_stale type now (postpone type value) ≡ false
unfolding is_stale postpone
is_stale-postpone ttl now value l = ground arith
is_stale-postpone confident now value l = ground arith

module _ {K : Type 0} (same : K → K → Bool) where
  get_inner_lem :
      (k : K) (type : GetType) (now e : ℕ) (c : LruCache K DnsCacheValue)
      → find same k c.cache_map ≡ some e
      → get_inner same k type now c ≡ check type now e (ref e c)
  unfolding get_inner
  get_inner_lem k type now e c f =
      ap
        (λ (r : Option ℕ × LruCache K DnsCacheValue). elim r.0 [
          | none ↦ (none, r.1)
          | some d ↦ check type now d r.1
        ])
        (get_found same k e c f)

  check_fresh :
      (type : GetType) (now e : ℕ) (h : Handle K DnsCacheValue) (c : LruCache K DnsCacheValue)
      → c.heap e ≡ some h
      → is_stale type now h.value ≡ false
      → check type now e c ≡ (some e, c)
  unfolding check
  check_fresh type now e h c p s = rw (p, check, s) refl

  check_stale :
      (type : GetType) (now e : ℕ) (h : Handle K DnsCacheValue) (c : LruCache K DnsCacheValue)
      → c.heap e ≡ some h
      → is_stale type now h.value ≡ true
      → check type now e c ≡ (
        none,
        unref e (record c {
          heap = update c.heap e (some (record h { value = postpone type h.value }));
        }),
      )
  unfolding check
  check_stale type now e h c p s = rw (p, check, s) refl

  -- The handle after a call: postponed, or with one use more.
  abbrev pub after_get : GetType → ℕ → Handle K DnsCacheValue → Handle K DnsCacheValue
  after_get type now h =
      if is_stale type now h.value
      then record h { value = postpone type h.value }
      else record h { ref = h.ref + 1 }

  -- A call of `get_inner` for a key that the cache holds, with a handle that the cache counts as a
  -- use: it returns NULL exactly if the entry is out of date, and then moves its time and leaves
  -- its uses as they were; otherwise it returns the handle with one use more. The key stays bound.
  pub get_inner-Holds :
      (k : K) (type : GetType) (now e : ℕ) (h : Handle K DnsCacheValue)
      (c : LruCache K DnsCacheValue)
      → Holds same k e h c
      → 0 < h.ref
      → ((get_inner same k type now c).0 ≡ (if is_stale type now h.value then none else some e))
        × Holds same k e (after_get type now h) (get_inner same k type now c).1
  get_inner-Holds k type now e h c v r =
      let (there, map) = heap-ref e h c v.there in
      let used : Handle K DnsCacheValue = record h { ref = h.ref + 1 } in
      elim (Bool-cases (is_stale type now h.value)) [
        | inl s ↦
            let c' = record (ref e c) {
              heap = update (ref e c).heap e (some (record used { value = postpone type h.value }));
            } in
            let (there', map') =
              heap-unref e (record used { value = postpone type h.value }) c' (ground arith)
                (omega arith) in
            rw
              (
                get_inner_lem k type now e c v.bound,
                check_stale type now e used (ref e c) there s,
                s,
              )
              (
                refl,
                record {
                  bound = ap (find same k) (map' ∙ map) ∙ v.bound;
                  there = there' ∙ ground arith;
                },
              )
        | inr s ↦
            rw
              (
                get_inner_lem k type now e c v.bound,
                check_fresh type now e used (ref e c) there s,
                s,
              )
              (refl, record { bound = ap (find same k) map ∙ v.bound; there = there })
      ]

  -- Of two calls for a key whose entry was out of date at the first one, the second gets the handle
  -- if it comes within ten seconds after the entry's own time.
  pub get_inner-get_inner :
      (k : K) (type : GetType) (now later e : ℕ) (h : Handle K DnsCacheValue)
      (c : LruCache K DnsCacheValue)
      → Holds same k e h c
      → 0 < h.ref
      → is_stale type now h.value ≡ true
      → later ≤ due type h.value + 10
      → ((get_inner same k type now c).0 ≡ none)
        × ((get_inner same k type later (get_inner same k type now c).1).0 ≡ some e)
  get_inner-get_inner k type now later e h c v r s l =
      let h' : Handle K DnsCacheValue = record h { value = postpone type h.value } in
      let (first, held) = get_inner-Holds k type now e h c v r in
      let held' : Holds same k e h' (get_inner same k type now c).1 =
        subst
          (λ b.
            Holds same k e (if b then h' else record h { ref = h.ref + 1 })
              (get_inner same k type now c).1)
          s held in
      let (second, _) = get_inner-Holds k type later e h' (get_inner same k type now c).1 held' r in
      (
        first ∙ ap (λ b. if b then none else some e) s,
        second ∙ ap (λ b. if b then none else some e) (is_stale-postpone type later h.value l),
      )

-- A new entry never expires before it may be looked up again with confidence, and neither time is
-- past, while the clock is 2^32 seconds from its end.
pub confident_time-new_value-le :
    (addrinfo now dns_ttl_default dns_ttl_min : ℕ)
    → dns_ttl_default < 2 ^ 32
    → dns_ttl_min < 2 ^ 32
    → now + 2 ^ 32 ≤ int64_max
    → (now ≤ (new_value addrinfo now dns_ttl_default dns_ttl_min).confident_time)
      × ((new_value addrinfo now dns_ttl_default dns_ttl_min).confident_time
          ≤ (new_value addrinfo now dns_ttl_default dns_ttl_min).expire_time)
      × ((new_value addrinfo now dns_ttl_default dns_ttl_min).expire_time ≤ int64_max)
unfolding new_value
confident_time-new_value-le addrinfo now dns_ttl_default dns_ttl_min a b l = ground arith
