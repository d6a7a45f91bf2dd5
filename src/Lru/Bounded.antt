-- ===== src/Lru/Bounded.antt =====
-- LRUCache::put and the limit of the cache.
use demo_submodule.Prelude.{
  update, ℕ, zero, suc, ◌+◌, ◌-◌, ◌≤◌, ◌<◌, ◌≡◌, ◌≢◌, refl, ap, Bool, true, false, some, [], ◌∷◌,
  ◌++◌, arith, inl, inr, if◌then◌else◌, length, Bool-cases, Option-cases,
}
use demo_submodule.Lru.{
  Handle, LruCache, find, unlink, erase_node, unref, unref_handle, evict_loop, enter, put, shrink,
  has_room,
}

module _ {K V : Type 0} (same : K → K → Bool) where
  -- The loop of `put` does nothing while the size is within the limit.
  evict_loop_within :
      (fuel : ℕ) (c : LruCache K V) → c.size ≤ c.max_size → evict_loop same fuel true c ≡ c
  unfolding evict_loop
  evict_loop_within zero c h = refl
  evict_loop_within (suc fuel) c h = ground arith

  max_size-unref :
      (e : ℕ) (c : LruCache K V) → ((unref e c).max_size ≡ c.max_size) × ((unref e c).size ≡ c.size)
  unfolding unref unref_handle unlink
  max_size-unref e c = ground arith

  size-erase_node :
      (e : ℕ) (c : LruCache K V)
      → ((erase_node e c).max_size ≡ c.max_size) × ((erase_node e c).size ≤ c.size)
  unfolding erase_node unlink
  size-erase_node e c = elim (Option-cases (c.heap e)) [
    | inl h ↦ rw (h, erase_node) (refl, omega arith)
    | inr (a, h) ↦
        let u = unlink e c in
        let c' = record u {
          heap = update u.heap e (some (record a { in_cache = false }));
          size = u.size - 1;
        } in
        let (m, s) = max_size-unref e c' in rw (h, erase_node) (m, omega arith)
  ]

  pub shrink_within : (c : LruCache K V) → c.size ≤ c.max_size → shrink same c ≡ c
  unfolding shrink
  shrink_within c h = ground (arith, evict_loop_within (length c.not_use) c h)

  pub shrink_unlimited : (c : LruCache K V) → c.max_size ≡ 0 → shrink same c ≡ c
  unfolding shrink
  shrink_unlimited c h = ground arith

  -- The handle that `put` makes, before it is known whether it enters the cache.
  abbrev pub with_new : K → V → LruCache K V → LruCache K V
  with_new k v c = record c {
    heap = update c.heap c.fresh (some (record { value = v; key = k; ref = 1; in_cache = false }));
    fresh = c.fresh + 1;
  }

  -- `put` on a full cache makes a handle for the caller and changes nothing else: the new value is
  -- not stored, a value that the key has stays, and no handle is evicted.
  pub put_full :
      (k : K) (v : V) (c : LruCache K V)
      → c.max_size ≢ 0
      → c.size ≡ c.max_size
      → put same k v c ≡ (c.fresh, with_new k v c)
  unfolding put
  put_full k v c h e =
      let full : has_room c ≡ false = unfold has_room in ground arith in
      simp full (ap (λ c'. (c.fresh, c')) (shrink_within (with_new k v c) (omega arith)))

  -- The cache with the new handle in it, before an old handle with its key leaves.
  abbrev pub linked : ℕ → Handle K V → LruCache K V → LruCache K V
  linked e h c = record c {
    size = c.size + 1;
    heap = update c.heap e (some (record h { in_cache = true; ref = 2 }));
    in_use = c.in_use ++ e ∷ [];
  }

  pub size-enter :
      (k : K) (e : ℕ) (h : Handle K V) (c : LruCache K V)
      → ((enter same k e h c).max_size ≡ c.max_size) × ((enter same k e h c).size ≤ c.size + 1)
  unfolding enter
  size-enter k e h c = elim (Option-cases (find same k c.cache_map)) [
    | inl f ↦ rw (f, enter) (refl, omega arith)
    | inr (old, f) ↦ rw (f, enter) (size-erase_node old (linked e h c))
  ]

  abbrev pub new_handle : K → V → Handle K V
  new_handle k v = record { value = v; key = k; ref = 1; in_cache = false }

  -- A limited cache that is within its limit stays within it, and `put` evicts nothing from it:
  -- it enters the new handle if there is room and leaves it outside the cache if there is not.
  pub size-put-le :
      (k : K) (v : V) (c : LruCache K V)
      → c.max_size ≢ 0
      → c.size ≤ c.max_size
      → ((put same k v c).1.size ≤ c.max_size)
        × ((put same k v c).1 ≡ (
            if has_room c
            then enter same k c.fresh (new_handle k v) (with_new k v c)
            else with_new k v c))
  unfolding put
  size-put-le k v c n h = elim (Bool-cases (has_room c)) [
    | inl r ↦
        let entered = enter same k c.fresh (new_handle k v) (with_new k v c) in
        let (m, s) = size-enter k c.fresh (new_handle k v) (with_new k v c) in
        let room : c.size < c.max_size = unfold has_room in ground arith in
        let e = shrink_within entered (omega arith) in simp (r, e) (omega arith, refl)
    | inr r ↦ let e = shrink_within (with_new k v c) h in simp (r, e) (h, refl)
  ]
