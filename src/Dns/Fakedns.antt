-- ===== src/Dns/Fakedns.antt =====
-- app/dns/fakedns/fake.go: the holder of fake addresses, over any cache that has the interface Lru.
-- A domain is told apart by equality alone and stands as a number. An address stands as the number
-- that `big.Int` makes of its bytes; the addresses are those of the pool's family, and the pool is
-- one whose addresses have no leading zero byte, which `Bytes` would leave out.
pub mod Finds
pub mod Unique
pub mod Runs
mod Tests
use gzv2ray_v.Cache.Lru.Interface.{Operations}
use gzv2ray_v.Prelude.{
  ℕ, zero, suc, none, some, Bool, Option, if◌then◌else◌, leb, ◌+◌, ◌&&◌, ◌^◌, ltb,
}

-- `ipRange` is the `size` addresses from `base`.
pub record Holder (S : Type 0) : Type 0 where
  pub domain_to_ip : S
  pub next_ip : ℕ
  pub base : ℕ
  pub size : ℕ

-- `ipRange.Contains`
unfoldable pub contains : ℕ → ℕ → ℕ → Bool
contains base size ip = leb base ip && ltb ip (base + size)

-- `initialize` behind the parser of the pool's text: the address that stands in it, the first
-- address of its range, and the bits behind its prefix. The cache is new. The test of the logarithms
-- is that of the numbers for sizes that a float64 tells from the powers of 2.
unfoldable pub initialize : {S : Type 0} → (ℕ → S) → ℕ → ℕ → ℕ → ℕ → Option (Holder S)
initialize new_lru ip base rooms lru_size =
    if leb (2 ^ rooms) lru_size
    then none
    else some
        (record { domain_to_ip = new_lru lru_size; next_ip = ip; base = base; size = 2 ^ rooms })

module _ {S : Type 0} (lru : Operations S) where
  -- The address behind `nextIP`, at the end of the pool its first one.
  abbrev pub following : Holder S → ℕ
  following h = if contains h.base h.size (h.next_ip + 1) then h.next_ip + 1 else h.base

  -- The loop of `GetFakeIPForDomain`; without fuel it would go on, which `none` says.
  unfoldable pub find_free : ℕ → Holder S → Option ℕ × Holder S
  find_free zero h = (none, h)
  find_free (suc fuel) h =
      let (user, s) = lru.get_key_from_value h.next_ip h.domain_to_ip in
      let h' = record h { domain_to_ip = s; next_ip = following h } in
      elim user [ none ↦ (some h.next_ip, h') | some domain ↦ find_free fuel h' ]

  unfoldable pub get_fake_ip_for_domain : ℕ → ℕ → Holder S → Option ℕ × Holder S
  unfolding find_free
  get_fake_ip_for_domain fuel domain h =
      let (known, s) = lru.get domain h.domain_to_ip in
      let h1 = record h { domain_to_ip = s } in
      elim known [
        | some ip ↦ (some ip, h1)
        | none ↦
            let (found, h2) = find_free fuel h1 in
            elim found [
              | none ↦ (none, h2)
              | some ip ↦ (some ip, record h2 { domain_to_ip = lru.put domain ip h2.domain_to_ip })
            ]
      ]

  abbrev pub asked : Option ℕ × S → Holder S → Option ℕ × Holder S
  asked (answer, s) h = (answer, record h { domain_to_ip = s })

  -- `GetDomainFromFakeDNS`: `none` is the empty text.
  unfoldable pub get_domain_from_fake_dns : ℕ → Holder S → Option ℕ × Holder S
  get_domain_from_fake_dns ip h =
      if contains h.base h.size ip
      then asked (lru.get_key_from_value ip h.domain_to_ip) h
      else (none, h)
