-- ===== src/Lru/Get.antt =====
-- What `get` returns for a key that the cache knows.
use demo_submodule.Prelude.{ℕ, ◌≡◌, refl, Bool, some}
use demo_submodule.Lru.{LruCache, find, get, ref}

module _ {K V : Type 0} (same : K → K → Bool) where
  pub get_found :
      (k : K) (e : ℕ) (c : LruCache K V)
      → find same k c.cache_map ≡ some e
      → get same k c ≡ (some e, ref e c)
  unfolding get
  get_found k e c f = rw (f, get) refl
