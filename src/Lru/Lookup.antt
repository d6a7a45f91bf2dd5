-- ===== src/Lru/Lookup.antt =====
-- What a cache with room holds after `put`.
use demo_submodule.Prelude.{
  update, ℕ, ◌-◌, ◌<◌, ◌≡◌, refl, ap, ◌∙◌, Bool, true, false, some, List, [], ◌∷◌, arith, inl, inr,
  ◌⊎◌, ◌↔◌, if◌then◌else◌, Option-cases,
}
use demo_submodule.Lru.{
  Handle, LruCache, find, assign, unlink, erase_node, unref, unref_handle, enter, put, has_room,
  shrink,
}
use demo_submodule.Lru.Bounded.{
  with_new, new_handle, linked, size-enter, shrink_within, shrink_unlimited,
}

module _ {K : Type 0} (same : K → K → Bool)
    (same_iff : (a b : K) → (same a b ≡ true) ↔ (a ≡ b)) where
  find-assign :
      (k j : K) (e : ℕ) (m : List (K × ℕ))
      → find same j (assign same k e m) ≡ (if same k j then some e else find same j m)
  unfolding find assign
  find-assign k j e [] = refl
  find-assign k j e ((i, d) ∷ m) =
      ground (arith, same_iff i k, same_iff i j, same_iff k j, find-assign k j e m)

-- has_room, as the two cases of its test.
room-cases :
    {K V : Type 0} (c : LruCache K V) → has_room c ≡ true → (c.max_size ≡ 0) ⊎ (c.size < c.max_size)
unfolding has_room
room-cases c r = ground arith

module _ {K V : Type 0} (same : K → K → Bool)
    (same_iff : (a b : K) → (same a b ≡ true) ↔ (a ≡ b)) where
  cache_map-unref : (e : ℕ) (c : LruCache K V) → (unref e c).cache_map ≡ c.cache_map
  unfolding unref unref_handle unlink
  cache_map-unref e c = ground arith

  cache_map-erase_node : (e : ℕ) (c : LruCache K V) → (erase_node e c).cache_map ≡ c.cache_map
  unfolding erase_node unlink
  cache_map-erase_node e c = elim (Option-cases (c.heap e)) [
    | inl h ↦ rw (h, erase_node) refl
    | inr (a, h) ↦
        let u = unlink e c in
        let c' = record u {
          heap = update u.heap e (some (record a { in_cache = false }));
          size = u.size - 1;
        } in
        rw (h, erase_node) (cache_map-unref e c')
  ]

  cache_map-enter :
      (k : K) (e : ℕ) (h : Handle K V) (c : LruCache K V)
      → (enter same k e h c).cache_map ≡ assign same k e c.cache_map
  unfolding enter
  cache_map-enter k e h c = elim (Option-cases (find same k c.cache_map)) [
    | inl f ↦ rw (f, enter) refl
    | inr (old, f) ↦
        rw (f, enter) (ap (assign same k e) (cache_map-erase_node old (linked same e h c)))
  ]

  -- `put` on a cache with room: the key is bound to the new handle, whether it was known or not,
  -- and every other key keeps its handle.
  pub find-put :
      (k j : K) (v : V) (c : LruCache K V)
      → has_room c ≡ true
      → find same j (put same k v c).1.cache_map
        ≡ (if same k j then some (put same k v c).0 else find same j c.cache_map)
  unfolding put
  find-put k j v c r =
      let entered = enter same k c.fresh (new_handle same k v) (with_new same k v c) in
      let (m, s) = size-enter same k c.fresh (new_handle same k v) (with_new same k v c) in
      let e : shrink same entered ≡ entered = elim (room-cases c r) [
        | inl unlimited ↦ shrink_unlimited same entered (m ∙ unlimited)
        | inr below ↦ shrink_within same entered (omega arith)
      ] in
      simp (r, e, cache_map-enter) (find-assign same same_iff k j c.fresh c.cache_map)
