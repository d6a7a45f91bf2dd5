-- ===== src/Tests/Dns.antt =====
-- An entry that is asked for after its time.
use demo_submodule.Prelude.{update, ℕ, ◌≡◌, refl, true, none, some, [], ◌∷◌, arith, ◌==◌, Bool}
use demo_submodule.Lru.{Handle, LruCache, find}
use demo_submodule.Dns.{DnsCacheValue, ttl, is_stale, postpone, get_inner}
use demo_submodule.Dns.Stale.{Holds, get_inner-Holds}

abbrev same_host : ℕ → ℕ → Bool
same_host a b = a == b

-- The entry of the host 7, good for 60 seconds and known for sure for 5.
abbrev entry : Handle ℕ DnsCacheValue
entry = record {
  value = record { addrinfo = 1; confident_time = 105; expire_time = 160 };
  key = 7;
  ref = 1;
  in_cache = true;
}

abbrev hosts : LruCache ℕ DnsCacheValue
hosts = record {
  max_size = 0;
  size = 1;
  not_use = 0 ∷ [];
  in_use = [];
  cache_map = (7, 0) ∷ [];
  heap = update (λ _. none) 0 (some entry);
  fresh = 1;
  deleted = [];
}

hosts-Holds : Holds same_host 7 0 entry hosts
unfolding find
hosts-Holds = record { bound = refl; there = refl }

get_inner-Holds_example :
    ((get_inner same_host 7 ttl 161 hosts).0 ≡ none)
    × Holds same_host 7 0
        (record entry { value = record { addrinfo = 1; confident_time = 105; expire_time = 170 } })
        (get_inner same_host 7 ttl 161 hosts).1
unfolding is_stale postpone
get_inner-Holds_example =
    get_inner-Holds same_host 7 ttl 161 0 entry hosts hosts-Holds (omega arith)
