-- ===== src/Lru/Counts.antt =====
-- What `ref` and `unref` do to the handle that they are given.
use demo_submodule.Prelude.{ℕ, ◌+◌, ◌-◌, ◌<◌, ◌≡◌, some, arith}
use demo_submodule.Lru.{Handle, LruCache, unlink, ref, ref_handle, unref, unref_handle}

module _ {K V : Type 0} where
  heap-ref_handle :
      (e : ℕ) (h : Handle K V) (c : LruCache K V)
      → ((ref_handle h e c).heap e ≡ some (record h { ref = h.ref + 1 }))
        × ((ref_handle h e c).cache_map ≡ c.cache_map)
  unfolding ref_handle unlink
  heap-ref_handle e h c = ground arith

  -- A handle that is there counts one use more, and the map stays.
  pub heap-ref :
      (e : ℕ) (h : Handle K V) (c : LruCache K V)
      → c.heap e ≡ some h
      → ((ref e c).heap e ≡ some (record h { ref = h.ref + 1 }))
        × ((ref e c).cache_map ≡ c.cache_map)
  unfolding ref
  heap-ref e h c p = rw (p, ref) (heap-ref_handle e h c)

  heap-unref_handle :
      (e : ℕ) (h : Handle K V) (c : LruCache K V)
      → 1 < h.ref
      → ((unref_handle h e c).heap e ≡ some (record h { ref = h.ref - 1 }))
        × ((unref_handle h e c).cache_map ≡ c.cache_map)
  unfolding unref_handle unlink
  heap-unref_handle e h c l = ground arith

  -- A handle with another use left counts one use less, and the map stays.
  pub heap-unref :
      (e : ℕ) (h : Handle K V) (c : LruCache K V)
      → c.heap e ≡ some h
      → 1 < h.ref
      → ((unref e c).heap e ≡ some (record h { ref = h.ref - 1 }))
        × ((unref e c).cache_map ≡ c.cache_map)
  unfolding unref
  heap-unref e h c p l = rw (p, unref) (heap-unref_handle e h c l)
