-- ===== src/Dns/Fakedns/Unique.antt =====
-- A domain and its fake address belong to each other.
use gzv2ray_v.Dns.Fakedns.{
  Holder, find_free, get_fake_ip_for_domain, get_domain_from_fake_dns, contains,
}
use gzv2ray_v.Dns.Fakedns.Finds.{IsValid, find_free-Found}
use gzv2ray_v.Cache.Lru.Interface.{Operations, IsLru, Same}
use gzv2ray_v.Cache.Lru.Recency.{value_of, key_of}
use gzv2ray_v.Prelude.{
  ℕ, inl, inr, none, some, refl, Option-cases, List, Option, ◌≡◌, ◌∙◌, ◌≤◌, sym, ◌<◌, ◌+◌, arith,
  ◌⊎◌, Bool-cases, ap, if◌then◌else◌,
}

module _ {S : Type 0} (lru : Operations S) (capacity : ℕ) (Shows : S → List (ℕ × ℕ) → Type 0)
    (law : IsLru lru capacity Shows) where
  abbrev pub Valid : Holder S → List (ℕ × ℕ) → Type 0
  Valid h ps = IsValid lru capacity Shows law h ps

  with_cache :
      (h : Holder S) (ps qs : List (ℕ × ℕ)) (s : S)
      → Valid h ps
      → Shows s qs
      → ((d a : ℕ)
          → value_of d qs ≡ some a
          → ((h.base ≤ a) × (a < h.base + h.size)) ⊎ (value_of d ps ≡ some a))
      → Valid (record h { domain_to_ip = s }) qs
  with_cache h ps qs s v shown old = record {
    all_in_pool = λ d a e. elim (old d a e) [ inl i ↦ i | inr o ↦ v.all_in_pool d a o ];
    shown = shown;
    some_room = v.some_room;
    fewer = v.fewer;
    from_base = v.from_base;
    in_pool = v.in_pool;
  }

  -- What a domain was given: an address of the pool, under which the cache has the domain.
  pub record Given (h : Holder S) (domain : ℕ) (ps : List (ℕ × ℕ)) (out : Option ℕ × Holder S)
      : Type 0 where
    pub ip : ℕ
    pub answer : out.0 ≡ some ip
    pub pairs : List (ℕ × ℕ)
    pub valid : Valid out.1 pairs
    pub under : value_of domain pairs ≡ some ip
    pub same_pool : (out.1.base ≡ h.base) × (out.1.size ≡ h.size)

  here_inside :
      (g h : Holder S) (a ip : ℕ)
      → a ≡ ip
      → (g.base ≡ h.base) × (g.size ≡ h.size)
      → (h.base ≤ ip) × (ip < h.base + h.size)
      → (g.base ≤ a) × (a < g.base + g.size)
  here_inside g h a ip e p i = (omega (arith, e, p, i), omega (arith, e, p, i))

  known_domain :
      (fuel domain ip : ℕ) (h : Holder S)
      → (lru.get domain h.domain_to_ip).0 ≡ some ip
      → get_fake_ip_for_domain lru fuel domain h
        ≡ (some ip, record h { domain_to_ip = (lru.get domain h.domain_to_ip).1 })
  unfolding get_fake_ip_for_domain
  known_domain fuel domain ip h e = rw (e, get_fake_ip_for_domain) refl

  unknown_domain :
      (fuel domain ip : ℕ) (h : Holder S)
      → (lru.get domain h.domain_to_ip).0 ≡ none
      → let h1 = record h { domain_to_ip = (lru.get domain h.domain_to_ip).1 } in
        (find_free lru fuel h1).0 ≡ some ip
        → get_fake_ip_for_domain lru fuel domain h ≡ (
          some ip,
          record (find_free lru fuel h1).1 {
            domain_to_ip = lru.put domain ip (find_free lru fuel h1).1.domain_to_ip;
          },
        )
  unfolding get_fake_ip_for_domain
  unknown_domain fuel domain ip h e f = rw (e, get_fake_ip_for_domain) (rw f refl)

  -- With a round for each address of the pool, a domain always gets an address.
  pub get_fake_ip-Given :
      (domain : ℕ) (h : Holder S) (ps : List (ℕ × ℕ))
      → Valid h ps
      → Given h domain ps (get_fake_ip_for_domain lru h.size domain h)
  get_fake_ip-Given domain h ps v =
      let (answer, (qs, shown, same)) = law.gets h.domain_to_ip ps domain v.shown in
      let s = (lru.get domain h.domain_to_ip).1 in
      let h1 = record h { domain_to_ip = s } in
      let with_same : Valid h1 qs =
        with_cache h ps qs s v shown (λ d a e. inr (sym (same.same_values d) ∙ e)) in
      elim (Option-cases (value_of domain ps)) [
        | inr (ip, known) ↦ rw (known_domain h.size domain ip h (answer ∙ known)) (record {
          ip = ip;
          answer = refl;
          pairs = qs;
          valid = with_same;
          under = same.same_values domain ∙ known;
          same_pool = (refl, refl);
        })
        | inl unknown ↦
            let f = find_free-Found lru capacity Shows law h1 qs with_same in
            let (rs, put_shown, under, old) =
              law.puts (find_free lru h.size h1).1.domain_to_ip f.pairs domain f.ip f.valid.shown
                (f.same.same_values domain ∙ same.same_values domain ∙ unknown)
                (f.same.same_keys f.ip ∙ f.free) f.valid.some_room in
            rw (unknown_domain h.size domain f.ip h (answer ∙ unknown) f.answer) (record {
              ip = f.ip;
              answer = refl;
              pairs = rs;
              valid =
                  with_cache (find_free lru h.size h1).1 f.pairs rs
                    (lru.put domain f.ip (find_free lru h.size h1).1.domain_to_ip) f.valid put_shown
                    (λ d a e. elim (old d a e) [
                      | inl n ↦
                          inl (
                            here_inside (find_free lru h.size h1).1 h a f.ip n f.same_pool f.inside)
                      | inr o ↦ inr o
                    ]);
              under = under;
              same_pool = f.same_pool;
            })
      ]

  -- What the lookup of an address answers, and that it keeps the pairs.
  pub get_domain-answers :
      (ip : ℕ) (h : Holder S) (ps : List (ℕ × ℕ))
      → Valid h ps
      → let (answer, h') = get_domain_from_fake_dns lru ip h in
        (answer ≡ (if contains h.base h.size ip then key_of ip ps else none))
        × (h'.size ≡ h.size)
        × ((qs : List (ℕ × ℕ)) × Valid h' qs × Same ps qs)
  unfolding get_domain_from_fake_dns
  get_domain-answers ip h ps v =
      let (answer, (qs, shown, same)) = law.gets_key h.domain_to_ip ps ip v.shown in
      let s = (lru.get_key_from_value ip h.domain_to_ip).1 in
      elim (Bool-cases (contains h.base h.size ip)) [
        | inl inside ↦ rw inside (
          answer,
          refl,
          (qs, with_cache h ps qs s v shown (λ d a e. inr (sym (same.same_values d) ∙ e)), same),
        )
        | inr outside ↦
            rw outside
              (refl, refl, (ps, v, record { same_values = λ k. refl; same_keys = λ w. refl }))
      ]

  -- A domain that has an address gets this one again.
  get_fake_ip-again :
      (fuel domain ip : ℕ) (h : Holder S) (ps : List (ℕ × ℕ))
      → Valid h ps
      → value_of domain ps ≡ some ip
      → (get_fake_ip_for_domain lru fuel domain h).0 ≡ some ip
  get_fake_ip-again fuel domain ip h ps v e =
      ap (λ out. out.0)
        (known_domain fuel domain ip h ((law.gets h.domain_to_ip ps domain v.shown).0 ∙ e))

  -- The address that a domain gets leads back to the domain, and the domain to the address.
  pub given_back :
      (domain : ℕ) (h : Holder S) (ps : List (ℕ × ℕ))
      → Valid h ps
      → let (answer, h') = get_fake_ip_for_domain lru h.size domain h in
        (ip : ℕ) × (answer ≡ some ip)
        × (h.base ≤ ip)
        × (ip < h.base + h.size)
        × ((get_domain_from_fake_dns lru ip h').0 ≡ some domain)
        × ((get_fake_ip_for_domain lru h.size domain h').0 ≡ some ip)
  unfolding contains
  given_back domain h ps v =
      let g = get_fake_ip-Given domain h ps v in
      let h' = (get_fake_ip_for_domain lru h.size domain h).1 in
      let inside = g.valid.all_in_pool domain g.ip g.under in
      let d = get_domain-answers g.ip h' g.pairs g.valid in
      (
        g.ip,
        g.answer,
        omega (arith, inside, g.same_pool),
        omega (arith, inside, g.same_pool),
        ground (
          arith,
          d.0,
          inside,
          (law.one_to_one h'.domain_to_ip g.pairs domain g.ip g.valid.shown).0 g.under,
        ),
        get_fake_ip-again h.size domain g.ip h' g.pairs g.valid g.under,
      )

  -- A domain that an address leads to has that address.
  pub found_back :
      (ip domain : ℕ) (h : Holder S) (ps : List (ℕ × ℕ))
      → Valid h ps
      → let (answer, h') = get_domain_from_fake_dns lru ip h in
        answer ≡ some domain → (get_fake_ip_for_domain lru h.size domain h').0 ≡ some ip
  found_back ip domain h ps v e =
      let d = get_domain-answers ip h ps v in
      let (qs, valid, same) = d.2 in
      let h' = (get_domain_from_fake_dns lru ip h).1 in
      let key : key_of ip ps ≡ some domain = ground (arith, sym d.0 ∙ e) in
      get_fake_ip-again h.size domain ip h' qs valid
        (same.same_values domain ∙ (law.one_to_one h.domain_to_ip ps domain ip v.shown).1 key)
