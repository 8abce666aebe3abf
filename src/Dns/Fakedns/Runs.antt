-- ===== src/Dns/Fakedns/Runs.antt =====
-- The holder over the cache of common/cache, after any queries.
use mathlib.Core.Path.{subst}
use gzv2ray_v.Cache.Lru.{Lru, new_lru}
use gzv2ray_v.Cache.Lru.Implements.Fills.{lru_operations, lru-IsLru, Shows, new_lru-Shows}
use gzv2ray_v.Cache.Lru.Recency.{value_of}
use gzv2ray_v.Dns.Fakedns.{Holder, initialize, get_fake_ip_for_domain, get_domain_from_fake_dns}
use gzv2ray_v.Dns.Fakedns.Finds.{IsValid}
use gzv2ray_v.Dns.Fakedns.Unique.{get_fake_ip-Given, get_domain-answers, given_back, found_back}
use gzv2ray_v.Prelude.{
  ℕ, inl, inr, some, arith, [], Bool-cases, ◌∷◌, Option, List, ◌≤◌, leb, ◌<◌, ◌^◌, ◌+◌, ◌≡◌,
}

pub data Query : Type 0 where
  asks : ℕ → Query
  resolves : ℕ → Query

-- Each loop has a round for every address of the pool.
unfoldable pub query : Query → Holder Lru → Option ℕ × Holder Lru
query (asks domain) h = get_fake_ip_for_domain lru_operations h.size domain h
query (resolves ip) h = get_domain_from_fake_dns lru_operations ip h

unfoldable pub run : List Query → Holder Lru → Holder Lru
unfolding query
run [] h = h
run (q ∷ queries) h = run queries (query q h).1

-- A holder whose cache has this capacity.
abbrev Valid : ℕ → Holder Lru → List (ℕ × ℕ) → Type 0
Valid capacity h ps = IsValid lru_operations capacity (Shows capacity) (lru-IsLru capacity) h ps

query-Valid :
    (capacity : ℕ) (q : Query) (h : Holder Lru) (ps : List (ℕ × ℕ))
    → Valid capacity h ps
    → (qs : List (ℕ × ℕ)) × Valid capacity (query q h).1 qs
unfolding query
query-Valid capacity (asks domain) h ps v =
    let g =
      get_fake_ip-Given lru_operations capacity (Shows capacity) (lru-IsLru capacity) domain h ps
        v in
    (g.pairs, g.valid)
query-Valid capacity (resolves ip) h ps v =
    let d =
      get_domain-answers lru_operations capacity (Shows capacity) (lru-IsLru capacity) ip h ps v in
    (d.2.0, d.2.1)

run-Valid :
    (capacity : ℕ) (queries : List Query) (h : Holder Lru) (ps : List (ℕ × ℕ))
    → Valid capacity h ps
    → (qs : List (ℕ × ℕ)) × Valid capacity (run queries h) qs
unfolding run
run-Valid capacity [] h ps v = (ps, v)
run-Valid capacity (q ∷ queries) h ps v =
    let (qs, w) = query-Valid capacity q h ps v in run-Valid capacity queries (query q h).1 qs w

-- The pool that `initialize` takes: an address in its range, and a cache that is smaller than it but
-- not empty.
pub record Starts (ip base rooms lru_size : ℕ) (h : Holder Lru) : Type 0 where
  pub from_base : base ≤ ip
  pub in_range : ip < base + 2 ^ rooms
  pub some_room : 0 < lru_size
  pub started : initialize new_lru ip base rooms lru_size ≡ some h

start-Valid :
    (ip base rooms lru_size : ℕ) (h : Holder Lru)
    → Starts ip base rooms lru_size h
    → Valid lru_size h []
unfolding initialize value_of
start-Valid ip base rooms lru_size h s = elim (Bool-cases (leb (2 ^ rooms) lru_size)) [
  | inl big ↦ absurd (let e = rw big at s.started in cc e)
  | inr fits ↦
      let e = rw fits at s.started in
      subst (λ o. Valid lru_size o []) (cc e)
        (record {
          shown = new_lru-Shows lru_size;
          some_room = s.some_room;
          fewer = ground arith;
          from_base = s.from_base;
          in_pool = s.in_range;
          all_in_pool = λ d a n. absurd (cc n);
        })
]

-- After any queries, a domain that is asked for gets an address of the pool, each loop in as many
-- rounds at most as the pool has addresses; the address then leads back to the domain, and the
-- domain to the address.
pub fake_ip_leads_back :
    (ip base rooms lru_size : ℕ) (h0 : Holder Lru) (queries : List Query) (domain : ℕ)
    → Starts ip base rooms lru_size h0
    → let h = run queries h0 in
      let (answer, h') = query (asks domain) h in
      (a : ℕ) × (answer ≡ some a)
      × (h.base ≤ a)
      × (a < h.base + h.size)
      × ((query (resolves a) h').0 ≡ some domain)
      × ((get_fake_ip_for_domain lru_operations h.size domain h').0 ≡ some a)
unfolding query
fake_ip_leads_back ip base rooms lru_size h0 queries domain s =
    let (ps, v) = run-Valid lru_size queries h0 [] (start-Valid ip base rooms lru_size h0 s) in
    given_back lru_operations lru_size (Shows lru_size) (lru-IsLru lru_size) domain (run queries h0)
      ps v

-- After any queries, the domain that an address leads to has that address.
pub domain_leads_back :
    (ip base rooms lru_size : ℕ) (h0 : Holder Lru) (queries : List Query) (a domain : ℕ)
    → Starts ip base rooms lru_size h0
    → let h = run queries h0 in
      let (answer, h') = query (resolves a) h in
      answer ≡ some domain → (get_fake_ip_for_domain lru_operations h.size domain h').0 ≡ some a
unfolding query
domain_leads_back ip base rooms lru_size h0 queries a domain s e =
    let (ps, v) = run-Valid lru_size queries h0 [] (start-Valid ip base rooms lru_size h0 s) in
    found_back lru_operations lru_size (Shows lru_size) (lru-IsLru lru_size) a domain
      (run queries h0) ps v e
