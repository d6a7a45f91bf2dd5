-- ===== src/Tests/Lru.antt =====
-- A cache of two entries, full and with room.
use demo_submodule.Prelude.{
  update, ℕ, ◌≡◌, refl, Bool, true, none, some, [], ◌∷◌, arith, ◌==◌, ==_iff, if◌then◌else◌,
}
use demo_submodule.Lru.{LruCache, find, has_room, put}
use demo_submodule.Lru.Bounded.{with_new, put_full}
use demo_submodule.Lru.Lookup.{find-put}

abbrev same_number : ℕ → ℕ → Bool
same_number a b = a == b

-- The keys 7 and 8, with the handles 0 and 1.
abbrev two_entries : LruCache ℕ ℕ
two_entries = record {
  max_size = 2;
  size = 2;
  not_use = 0 ∷ 1 ∷ [];
  in_use = [];
  cache_map = (7, 0) ∷ (8, 1) ∷ [];
  heap =
      update
        (update (λ _. none) 0 (some (record { value = 70; key = 7; ref = 1; in_cache = true }))) 1
        (some (record { value = 80; key = 8; ref = 1; in_cache = true }));
  fresh = 2;
  deleted = [];
}

abbrev with_room : LruCache ℕ ℕ
with_room = record two_entries { max_size = 3 }

put_full_example : put same_number 7 71 two_entries ≡ (2, with_new same_number 7 71 two_entries)
put_full_example = put_full same_number 7 71 two_entries (omega arith) refl

find-put_example : find same_number 7 (put same_number 7 71 with_room).1.cache_map ≡ (
    if same_number 7 7
    then some (put same_number 7 71 with_room).0
    else find same_number 7 with_room.cache_map)
unfolding has_room
find-put_example = find-put same_number ==_iff 7 7 71 with_room refl
