-- ===== src/Dns/Fakedns/Tests.antt =====
-- The theorems on the holder at a concrete pool of four addresses with a cache of two.
use gzv2ray_v.Cache.Lru.{Lru, new_lru}
use gzv2ray_v.Cache.Lru.Implements.Fills.{lru_operations}
use gzv2ray_v.Dns.Fakedns.{Holder, get_fake_ip_for_domain}
use gzv2ray_v.Dns.Fakedns.Runs.{
  Query, asks, resolves, query, run, Starts, fake_ip_leads_back, domain_leads_back,
}
use gzv2ray_v.Prelude.{ℕ, some, refl, arith, [], ◌∷◌, List, ◌≡◌, ◌≤◌, ◌<◌, ◌+◌}

abbrev start : Holder Lru
start = record { domain_to_ip = new_lru 2; next_ip = 103; base = 100; size = 4 }

start-Starts : Starts 103 100 2 2 start
unfolding gzv2ray_v.Dns.Fakedns.initialize
start-Starts = record {
  from_base = omega arith;
  in_range = omega arith;
  some_room = omega arith;
  started = refl;
}

-- The third domain makes the cache forget the second.
abbrev queries : List Query
queries = asks 1 ∷ asks 2 ∷ asks 1 ∷ resolves 103 ∷ asks 3 ∷ []

fake_ip_leads_back_example :
    let h = run queries start in
    let (answer, h') = query (asks 2) h in
    (a : ℕ) × (answer ≡ some a)
    × (h.base ≤ a)
    × (a < h.base + h.size)
    × ((query (resolves a) h').0 ≡ some 2)
    × ((get_fake_ip_for_domain lru_operations h.size 2 h').0 ≡ some a)
fake_ip_leads_back_example = fake_ip_leads_back 103 100 2 2 start queries 2 start-Starts

found : (query (resolves 101) (run queries start)).0 ≡ some 3
unfolding query gzv2ray_v.Dns.Fakedns.get_domain_from_fake_dns gzv2ray_v.Dns.Fakedns.contains run
    get_fake_ip_for_domain gzv2ray_v.Cache.Lru.get gzv2ray_v.Prelude.Dict.lookup new_lru
    gzv2ray_v.Cache.Lru.get_key_from_value gzv2ray_v.Cache.Lru.put gzv2ray_v.Prelude.Dict.insert
    gzv2ray_v.Cache.Lru.back gzv2ray_v.Prelude.Dict.delete
found = refl

domain_leads_back_example :
    (get_fake_ip_for_domain lru_operations
      (run queries start).size
      3
      (query (resolves 101) (run queries start)).1).0
    ≡ some 101
domain_leads_back_example = domain_leads_back 103 100 2 2 start queries 101 3 start-Starts found
