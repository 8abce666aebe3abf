-- ===== src/Protocol/Address.antt =====
-- common/protocol/address.go with common/net/address.go: the parser of addresses and ports. A text
-- is the list of its bytes. `parse_ip` is net.ParseIP and `trim_space` is strings.TrimSpace,
-- `room` the bytes that the buffer has place for.
mod Reads
pub mod RoundTrip
pub mod LongDomain
mod Tests
use gzv2ray_v.Kcp.Go.{put_u16, u16, value, panic}
use gzv2ray_v.Prelude.{
  ℕ, true, false, none, some, [], ◌∷◌, List, Option, Bool, ◌==◌, if◌then◌else◌, leb, ◌&&◌, length,
  ltb, drop, ◌||◌, ◌++◌, ◌-◌, get_or, not, take, ◌%◌, ◌+◌,
}

pub data Family : Type 0 where
  family_ipv4 : Family
  family_ipv6 : Family
  family_domain : Family

pub data Address : Type 0 where
  ipv4 : List ℕ → Address
  ipv6 : List ℕ → Address
  domain_address : List ℕ → Address

-- A call that returns a value or an error, or that panics.
pub data Outcome {ℓ} (A : Type ℓ) : Type ℓ where
  ok : A → Outcome A
  error : Outcome A
  panics : Outcome A

infixl 5 ◌>>=◌
abbrev pub ◌>>=◌ {ℓ κ} : {A : Type ℓ} {B : Type κ} → Outcome A → (A → Outcome B) → Outcome B
ok a >>= f = f a
error >>= f = error
panics >>= f = panics

unfoldable pub family : Address → Family
family (ipv4 b) = family_ipv4
family (ipv6 b) = family_ipv6
family (domain_address b) = family_domain

unfoldable pub is_mapped : List ℕ → Bool
is_mapped (a ∷ b ∷ c ∷ d ∷ e ∷ f ∷ g ∷ h ∷ i ∷ j ∷ k ∷ l ∷ _) =
    (a == 0)
    && (b == 0)
    && (c == 0)
    && (d == 0)
    && (e == 0)
    && (f == 0)
    && (g == 0)
    && (h == 0)
    && (i == 0)
    && (j == 0)
    && (k == 0xff)
    && (l == 0xff)
is_mapped _ = false

-- `IPAddress`; `none` is nil.
unfoldable pub ip_address : List ℕ → Option Address
unfolding is_mapped
ip_address ip =
    if length ip == 4
    then some (ipv4 ip)
    else if length ip == 16
    then if is_mapped ip then some (ipv4 (drop 12 ip)) else some (ipv6 ip)
    else none

-- The option of a parser: `addrTypeMap` and `addrByteMap` without their invalid entries, and the
-- `typeParser`, which does nothing where there is none.
pub record AddressParser : Type 0 where
  pub family_of : ℕ → Option Family
  pub byte_of : Family → Option ℕ
  pub type_parser : ℕ → ℕ

-- `ReadFullFrom`: what the buffer and the reader hold after it. The buffer's storage has place for
-- `room` bytes from its start.
unfoldable pub read_full : ℕ → ℕ → List ℕ × List ℕ → Outcome (List ℕ × List ℕ)
read_full room n (b, r) =
    if ltb room (length b + n)
    then error
    else if ltb (length r) n
    then error
    else ok (b ++ take n r, drop n r)

-- `b.BytesFrom(-n)`, which for no bytes is the whole buffer.
unfoldable pub bytes_from_end : ℕ → List ℕ → List ℕ
bytes_from_end n b = if n == 0 then b else drop (length b - n) b

unfoldable pub byte_at_start : List ℕ → Outcome ℕ
byte_at_start [] = panics
byte_at_start (x ∷ xs) = ok x

-- `b.Byte(b.Len() - 1)`
unfoldable pub last_byte : List ℕ → Outcome ℕ
unfolding byte_at_start
last_byte b = byte_at_start (bytes_from_end 1 b)

-- `PortFromBytes`
unfoldable pub port_from_bytes : List ℕ → Outcome ℕ
port_from_bytes b = elim (u16 b) [ value port ↦ ok port | panic ↦ panics ]

unfoldable pub maybe_ip_prefix : ℕ → Bool
maybe_ip_prefix c = c == 91 || (leb 48 c && leb c 57)

unfoldable pub is_domain_byte : ℕ → Bool
is_domain_byte c =
    (leb 48 c && leb c 57)
    || (leb 97 c && leb c 122)
    || (leb 65 c && leb c 90)
    || c == 45
    || c == 46
    || c == 95

unfoldable pub is_valid_domain : List ℕ → Bool
unfolding is_domain_byte
is_valid_domain [] = true
is_valid_domain (c ∷ cs) = is_domain_byte c && is_valid_domain cs

unfoldable pub is_alpha_num : ℕ → Bool
is_alpha_num c = (leb 48 c && leb c 57) || (leb 97 c && leb c 122) || (leb 65 c && leb c 90)

module _ (room : ℕ) (parse_ip : List ℕ → Option (List ℕ)) (trim_space : List ℕ → List ℕ) where
  unfoldable pub unbracketed : List ℕ → List ℕ
  unbracketed addr =
      if ltb 0 (length addr) && get_or addr 0 0 == 91 && get_or addr (length addr - 1) 0 == 93
      then take (length addr - 2) (drop 1 addr)
      else addr

  unfoldable pub trimmed : List ℕ → List ℕ
  trimmed addr =
      if ltb 0 (length addr)
        && (not (is_alpha_num (get_or addr 0 0))
            || not (is_alpha_num (get_or addr (length addr - 1) 0)))
      then trim_space addr
      else addr

  unfoldable pub address_of : Option (List ℕ) → List ℕ → Option Address
  address_of none text = some (domain_address text)
  address_of (some ip) text = ip_address ip

  -- `ParseAddress`
  unfoldable pub parse_address : List ℕ → Option Address
  unfolding unbracketed trimmed address_of
  parse_address addr = let text = trimmed (unbracketed addr) in address_of (parse_ip text) text

  -- What `readAddress` makes of the text of a domain; `nil` has no family.
  unfoldable pub checked_domain : List ℕ → Outcome Address
  checked_domain text = if is_valid_domain text then ok (domain_address text) else error

  unfoldable pub chosen : Option Address → List ℕ → Outcome Address
  unfolding checked_domain
  chosen none text = panics
  chosen (some (ipv4 b)) text = ok (ipv4 b)
  chosen (some (ipv6 b)) text = ok (ipv6 b)
  chosen (some (domain_address b)) text = checked_domain text

  unfoldable pub parsed_domain : List ℕ → Outcome Address
  unfolding chosen
  parsed_domain text = chosen (parse_address text) text

  unfoldable pub read_domain : List ℕ → Outcome Address
  unfolding parsed_domain checked_domain
  read_domain [] = panics
  read_domain (c ∷ cs) =
      if maybe_ip_prefix c then parsed_domain (c ∷ cs) else checked_domain (c ∷ cs)

  -- An address of 4 or 16 bytes is never nil.
  unfoldable pub returned : Option Address → List ℕ × List ℕ → Outcome (Address × (List ℕ × List ℕ))
  returned none s = panics
  returned (some a) s = ok (a, s)

  unfoldable pub read_family : Family → List ℕ × List ℕ → Outcome (Address × (List ℕ × List ℕ))
  unfolding read_full returned
  read_family family_ipv4 s = do
    (b, r) ← read_full room 4 s
    returned (ip_address (bytes_from_end 4 b)) (b, r)
  read_family family_ipv6 s = do
    (b, r) ← read_full room 16 s
    returned (ip_address (bytes_from_end 16 b)) (b, r)
  read_family family_domain s = do
    (b1, r1) ← read_full room 1 s
    n ← last_byte b1
    (b2, r2) ← read_full room n (b1, r1)
    a ← read_domain (bytes_from_end n b2)
    ok (a, (b2, r2))

  unfoldable pub read_address :
      AddressParser → List ℕ × List ℕ → Outcome (Address × (List ℕ × List ℕ))
  unfolding read_family
  read_address p s = do
    (b, r) ← read_full room 1 s
    x ← last_byte b
    let addr_type = p.type_parser x
    if leb 16 addr_type
        then error
        else elim (p.family_of addr_type) [ none ↦ error | some f ↦ read_family f (b, r) ]

  unfoldable pub read_port : List ℕ × List ℕ → Outcome (ℕ × (List ℕ × List ℕ))
  unfolding read_full port_from_bytes
  read_port s = do
    (b, r) ← read_full room 2 s
    port ← port_from_bytes (bytes_from_end 2 b)
    ok (port, (b, r))

  -- `ReadAddressPort` of the two parsers: the address, the port, and what the reader still has.
  unfoldable pub read_port_first : AddressParser → List ℕ → List ℕ → Outcome (Address × ℕ × List ℕ)
  unfolding read_port read_address
  read_port_first p buffer input = do
    (port, s) ← read_port (buffer, input)
    (a, (b, r)) ← read_address p s
    ok (a, port, r)

  unfoldable pub read_port_last : AddressParser → List ℕ → List ℕ → Outcome (Address × ℕ × List ℕ)
  unfolding read_port read_address
  read_port_last p buffer input = do
    (a, s) ← read_address p (buffer, input)
    (port, (b, r)) ← read_port s
    ok (a, port, r)

-- `writeAddress`: the bytes that it writes.
unfoldable pub put_address : ℕ → Address → Outcome (List ℕ)
put_address tb (ipv4 ip) = ok (tb ∷ ip)
put_address tb (ipv6 ip) = ok (tb ∷ ip)
put_address tb (domain_address text) =
    if ltb 256 (length text) then error else ok (tb ∷ length text % 256 ∷ text)

unfoldable pub put_by : Option ℕ → Address → Outcome (List ℕ)
unfolding put_address
put_by none a = error
put_by (some tb) a = put_address tb a

unfoldable pub write_address : AddressParser → Address → Outcome (List ℕ)
unfolding put_by family
write_address p a = put_by (p.byte_of (family a)) a

-- `WriteAddressPort` of the two parsers.
unfoldable pub write_port_first : AddressParser → Address → ℕ → Outcome (List ℕ)
unfolding write_address
write_port_first p a port = do address ← write_address p a; ok (put_u16 port ++ address)

unfoldable pub write_port_last : AddressParser → Address → ℕ → Outcome (List ℕ)
unfolding write_address
write_port_last p a port = do address ← write_address p a; ok (address ++ put_u16 port)
