-- ===== src/Dns.antt =====
-- DNSCache of workflow-step-by-step/src/manager/DNSCache.h and DNSCache.cc: a cache of the
-- addresses of hosts, with times from which an entry is to be looked up again. A time is a number
-- of seconds, `now` what the steady clock gives. An `addrinfo` is a number, its address.
pub mod Stale
use demo_submodule.Prelude.{
  update, ℕ, ◌+◌, ◌-◌, ◌^◌, Bool, true, false, Option, none, some, ltb, ◌==◌, if◌then◌else◌,
}
use demo_submodule.Lru.{LruCache, Handle, unref}
use demo_submodule.Lru

pub record DnsCacheValue : Type 0 where
  pub addrinfo : ℕ
  pub confident_time : ℕ
  pub expire_time : ℕ

-- GET_TYPE_TTL and GET_TYPE_CONFIDENT
pub data GetType : Type 0 where
  ttl confident : GetType

abbrev pub ttl_inc : ℕ
ttl_inc = 10

abbrev pub confident_inc : ℕ
confident_inc = 10

-- (unsigned int)-1 and INT64_MAX
abbrev pub uint_max : ℕ
uint_max = 2 ^ 32 - 1

abbrev pub int64_max : ℕ
int64_max = 2 ^ 63 - 1

unfoldable pub is_stale : GetType → ℕ → DnsCacheValue → Bool
is_stale ttl now value = ltb value.expire_time now
is_stale confident now value = ltb value.confident_time now

unfoldable pub postpone : GetType → DnsCacheValue → DnsCacheValue
postpone ttl value = record value { expire_time = value.expire_time + ttl_inc }
postpone confident value = record value { confident_time = value.confident_time + confident_inc }

-- What `get_inner` does with the handle that the cache gave out.
pub check :
    {K : Type 0} → GetType → ℕ → ℕ → LruCache K DnsCacheValue → Option ℕ × LruCache K DnsCacheValue
check type now e c = elim (c.heap e) [
  | none ↦ (some e, c)
  | some h ↦
      if is_stale type now h.value
      then (
        none,
        unref e (record c {
          heap = update c.heap e (some (record h { value = postpone type h.value }));
        }),
      )
      else (some e, c)
]

-- The times of a new entry.
pub new_value : ℕ → ℕ → ℕ → ℕ → DnsCacheValue
new_value addrinfo now dns_ttl_default dns_ttl_min =
    let least = if ltb dns_ttl_default dns_ttl_min then dns_ttl_default else dns_ttl_min in
    record {
      addrinfo = addrinfo;
      confident_time = if least == uint_max then int64_max else now + least;
      expire_time = if dns_ttl_default == uint_max then int64_max else now + dns_ttl_default;
    }

module _ {K : Type 0} (same : K → K → Bool) where
  pub get_inner : K → GetType → ℕ → LruCache K DnsCacheValue → Option ℕ × LruCache K DnsCacheValue
  get_inner host_port type now c =
      let (handle, c') = Lru.get same host_port c in
      elim handle [ none ↦ (none, c') | some e ↦ check type now e c' ]

  pub put : K → ℕ → ℕ → ℕ → ℕ → LruCache K DnsCacheValue → ℕ × LruCache K DnsCacheValue
  put host_port addrinfo dns_ttl_default dns_ttl_min now c =
      Lru.put same host_port (new_value addrinfo now dns_ttl_default dns_ttl_min) c

  pub get_ttl : K → ℕ → LruCache K DnsCacheValue → Option ℕ × LruCache K DnsCacheValue
  get_ttl host_port now c = get_inner host_port ttl now c

  pub get_confident : K → ℕ → LruCache K DnsCacheValue → Option ℕ × LruCache K DnsCacheValue
  get_confident host_port now c = get_inner host_port confident now c
