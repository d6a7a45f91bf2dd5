-- ===== src/Lru.antt =====
-- LRUCache of workflow-step-by-step/src/util/LRUCache.h. A handle is a number, the address of an
-- LRUHandle; the cache holds a store of them. The two circular lists are lists of handles, oldest
-- first; `list_remove` takes a handle out of the list that it is linked in, which is the one that
-- holds it. `deleted` lists the handles whose value was given to the deleter. The mutex makes each
-- operation atomic.
pub mod Bounded
pub mod Lookup
pub mod Counts
pub mod Get
use demo_submodule.Prelude.{
  update, ℕ, zero, suc, ◌+◌, ◌-◌, Bool, true, false, ◌&&◌, ◌||◌, not, Option, none, some, List, [],
  ◌∷◌, ◌++◌, ltb, leb, ◌==◌, if◌then◌else◌, length,
}

pub record Handle (K V : Type 0) : Type 0 where
  pub value : V
  pub key : K
  pub ref : ℕ
  pub in_cache : Bool

pub record LruCache (K V : Type 0) : Type 0 where
  pub max_size : ℕ
  pub size : ℕ
  pub not_use : List ℕ
  pub in_use : List ℕ
  pub cache_map : List (K × ℕ)
  -- the handles that `new` has made, the next address, and the handles deleted
  pub heap : ℕ → Option (Handle K V)
  pub fresh : ℕ
  pub deleted : List ℕ

pub list_remove : ℕ → List ℕ → List ℕ
list_remove e [] = []
list_remove e (x ∷ l) = let rest = list_remove e l in if x == e then l else x ∷ rest

-- std::map with keys that `same` compares.
module _ {K : Type 0} (same : K → K → Bool) where
  unfoldable pub find : K → List (K × ℕ) → Option ℕ
  find k [] = none
  find k ((j, e) ∷ m) = if same j k then some e else find k m

  pub erase : K → List (K × ℕ) → List (K × ℕ)
  erase k [] = []
  erase k ((j, e) ∷ m) = let rest = erase k m in if same j k then m else (j, e) ∷ rest

  pub assign : K → ℕ → List (K × ℕ) → List (K × ℕ)
  assign k e [] = (k, e) ∷ []
  assign k e ((j, i) ∷ m) = if same j k then (j, e) ∷ m else (j, i) ∷ assign k e m

module _ {K V : Type 0} where
  pub create : LruCache K V
  create = record {
    max_size = 0;
    size = 0;
    not_use = [];
    in_use = [];
    cache_map = [];
    heap = λ _. none;
    fresh = 0;
    deleted = [];
  }

  pub set_max_size : ℕ → LruCache K V → LruCache K V
  set_max_size n c = record c { max_size = n }

  -- Out of both lists: a handle is linked in one of them at most.
  pub unlink : ℕ → LruCache K V → LruCache K V
  unlink e c = record c { not_use = list_remove e c.not_use; in_use = list_remove e c.in_use }

  pub ref_handle : Handle K V → ℕ → LruCache K V → LruCache K V
  ref_handle h e c =
      let u = unlink e c in
      let c' = if h.in_cache && (h.ref == 1) then record u { in_use = u.in_use ++ e ∷ [] } else c in
      record c' { heap = update c'.heap e (some (record h { ref = h.ref + 1 })) }

  -- ref(e) of a handle that is there.
  pub ref : ℕ → LruCache K V → LruCache K V
  ref e c = elim (c.heap e) [ none ↦ c | some h ↦ ref_handle h e c ]

  pub unref_handle : Handle K V → ℕ → LruCache K V → LruCache K V
  unref_handle h e c =
      let n = h.ref - 1 in
      if n == 0
      then record c { heap = update c.heap e none; deleted = c.deleted ++ e ∷ [] }
      else (let c1 = record c { heap = update c.heap e (some (record h { ref = n })) } in
          let u = unlink e c1 in
          if h.in_cache && (n == 1) then record u { not_use = u.not_use ++ e ∷ [] } else c1)

  -- unref(e)
  pub unref : ℕ → LruCache K V → LruCache K V
  unref e c = elim (c.heap e) [ none ↦ c | some h ↦ unref_handle h e c ]

  -- erase_node(e)
  pub erase_node : ℕ → LruCache K V → LruCache K V
  erase_node e c = elim (c.heap e) [
    | none ↦ c
    | some h ↦
        let u = unlink e c in
        unref e (record u {
          heap = update u.heap e (some (record h { in_cache = false }));
          size = u.size - 1;
        })
  ]

  -- max_size_ == 0 || size_ < max_size_
  unfoldable pub has_room : LruCache K V → Bool
  has_room c = c.max_size == 0 || ltb c.size c.max_size

  module _ (same : K → K → Bool) where
    pub get : K → LruCache K V → Option ℕ × LruCache K V
    get k c = elim (find same k c.cache_map) [ none ↦ (none, c) | some e ↦ (some e, ref e c) ]

    pub release : Option ℕ → LruCache K V → LruCache K V
    release none c = c
    release (some e) c = unref e c

    -- The oldest handle that is not in use leaves the cache.
    pub evict : ℕ → LruCache K V → LruCache K V
    evict e c = elim (c.heap e) [
      | none ↦ c
      | some h ↦ erase_node e (record c { cache_map = erase same h.key c.cache_map })
    ]

    -- The loops of `prune` and of `put`; `bounded` is whether the size is part of the test. The
    -- fuel bounds the rounds.
    pub evict_loop : ℕ → Bool → LruCache K V → LruCache K V
    evict_loop zero bounded c = c
    evict_loop (suc fuel) bounded c = elim c.not_use [
      | [] ↦ c
      | e ∷ rest ↦
          let next = evict_loop fuel bounded (evict e c) in
          if bounded && leb c.size c.max_size then c else next
    ]

    pub prune : LruCache K V → LruCache K V
    prune c = evict_loop (length c.not_use) false c

    -- The first half of `put`, for the new handle `e` with its key.
    pub enter : K → ℕ → Handle K V → LruCache K V → LruCache K V
    enter k e h c =
        let c1 = record c {
          size = c.size + 1;
          heap = update c.heap e (some (record h { in_cache = true; ref = 2 }));
          in_use = c.in_use ++ e ∷ [];
        } in
        elim (find same k c.cache_map) [
          | none ↦ record c1 { cache_map = assign same k e c1.cache_map }
          | some old ↦
              let c2 = erase_node old c1 in record c2 { cache_map = assign same k e c2.cache_map }
        ]

    -- `if (max_size_ > 0)` and the loop of `put`.
    pub shrink : LruCache K V → LruCache K V
    shrink c = if ltb 0 c.max_size then evict_loop (length c.not_use) true c else c

    pub put : K → V → LruCache K V → ℕ × LruCache K V
    put k v c =
        let e = c.fresh in
        let h : Handle K V = record { value = v; key = k; ref = 1; in_cache = false } in
        let c0 = record c { heap = update c.heap e (some h); fresh = e + 1 } in
        let c1 = if has_room c then enter k e h c0 else c0 in (e, shrink c1)

    pub del : K → LruCache K V → LruCache K V
    del k c = elim (find same k c.cache_map) [
      | none ↦ c
      | some e ↦ erase_node e (record c { cache_map = erase same k c.cache_map })
    ]
