-- ===== src/Protocol/Address/RoundTrip.antt =====
-- An address and a port that were written are read back.
use gzv2ray_v.Protocol.Address.{
  chosen, address_of, put_by, Address, AddressParser, Family, ok, ipv4, ipv6, domain_address, ◌>>=◌,
  family, ip_address, is_mapped, maybe_ip_prefix, is_valid_domain, unbracketed, trimmed,
  parse_address, checked_domain, parsed_domain, read_domain, returned, read_family, read_address,
  read_port_first, read_port_last, put_address, write_address, write_port_first, write_port_last,
}
use gzv2ray_v.Protocol.Address.Reads.{
  bytes_from_end-append, read_full-append, last_byte-append, read_port-put,
}
use gzv2ray_v.Kcp.Go.{put_u16, IsU16}
use gzv2ray_v.Kcp.Go.Slices.{length-put_u16}
use gzv2ray_v.Prelude.{
  Bool, if◌then◌else◌, ℕ, refl, arith, [], ◌∷◌, List, length, ◌++◌, Option, ◌≡◌, ◌<◌, ◌≤◌,
  le→ltb_false, length-append, ap, ◌∙◌, ◌%◌, true, false, some, none, append_assoc, ◌+◌, leb,
}

-- What the bytes of the type stand for: the parser maps each that it writes to its family.
pub record IsAddressParser (p : AddressParser) : Type 0 where
  pub small : (f : Family) (tb : ℕ) → p.byte_of f ≡ some tb → leb 16 (p.type_parser tb) ≡ false
  pub reads_back :
      (f : Family) (tb : ℕ) → p.byte_of f ≡ some tb → p.family_of (p.type_parser tb) ≡ some f

-- The bytes of an address behind its type.
unfoldable pub body : Address → List ℕ
body (ipv4 ip) = ip
body (ipv6 ip) = ip
body (domain_address text) = length text % 256 ∷ text

if_same {ℓ} : {A : Type ℓ} → (b : Bool) (x : A) → (if b then x else x) ≡ x
if_same true x = refl
if_same false x = refl

small_mod : (n : ℕ) → n < 256 → n % 256 ≡ n
small_mod n h = omega (arith, h)

module _ (room : ℕ) (parse_ip : List ℕ → Option (List ℕ)) (trim_space : List ℕ → List ℕ) where
  -- The addresses that the wire has: an IPv6 address is not one that stands for an IPv4 address, and
  -- a domain is not empty, fits a byte of length and is not the text of an IP.
  unfoldable pub Fits : Address → Type 0
  Fits (ipv4 ip) = length ip ≡ 4
  Fits (ipv6 ip) = (length ip ≡ 16) × (is_mapped ip ≡ false)
  Fits (domain_address text) =
      (0 < length text)
      × (length text < 256)
      × (is_valid_domain text ≡ true)
      × (parse_ip (trimmed room parse_ip trim_space (unbracketed room parse_ip trim_space text))
          ≡ none)

  checked_domain-valid :
      (text : List ℕ)
      → is_valid_domain text ≡ true
      → checked_domain room parse_ip trim_space text ≡ ok (domain_address text)
  unfolding checked_domain
  checked_domain-valid text v = rw (v) refl

  parsed_domain-valid :
      (text : List ℕ)
      → is_valid_domain text ≡ true
      → parse_ip (trimmed room parse_ip trim_space (unbracketed room parse_ip trim_space text))
        ≡ none
      → parsed_domain room parse_ip trim_space text ≡ ok (domain_address text)
  unfolding parsed_domain parse_address chosen address_of
  parsed_domain-valid text v q =
      ap (λ o. chosen room parse_ip trim_space o text)
        (ap
          (λ o.
            address_of room parse_ip trim_space o
              (trimmed room parse_ip trim_space (unbracketed room parse_ip trim_space text)))
          q)
      ∙ checked_domain-valid text v

  read_domain-valid :
      (text : List ℕ)
      → Fits (domain_address text)
      → read_domain room parse_ip trim_space text ≡ ok (domain_address text)
  unfolding Fits read_domain
  read_domain-valid [] (h, _, _, _) = absurd (omega (arith, h))
  read_domain-valid (c ∷ cs) (_, _, v, q) =
      rw (parsed_domain-valid (c ∷ cs) v q, checked_domain-valid (c ∷ cs) v)
        (if_same (maybe_ip_prefix c) (ok (domain_address (c ∷ cs))))

  ip_address-ipv4 : (ip : List ℕ) → length ip ≡ 4 → ip_address ip ≡ some (ipv4 ip)
  unfolding ip_address
  ip_address-ipv4 ip l = rw (l) refl

  ip_address-ipv6 :
      (ip : List ℕ) → length ip ≡ 16 → is_mapped ip ≡ false → ip_address ip ≡ some (ipv6 ip)
  unfolding ip_address
  ip_address-ipv6 ip l m = rw (l, m) refl

  read_family-body :
      (a : Address) (b r : List ℕ)
      → Fits a
      → length b + 256 ≤ room
      → read_family room parse_ip trim_space (family a) (b, body a ++ r) ≡ ok (a, (b ++ body a, r))
  unfolding Fits read_family family body returned
  read_family-body (ipv4 ip) b r l h =
      rw
        (
          read_full-append room 4 b ip r l (omega (arith, h)),
          ◌>>=◌,
          bytes_from_end-append 4 b ip l (omega arith),
          ip_address-ipv4 ip l,
        )
        refl
  read_family-body (ipv6 ip) b r (l, m) h =
      rw
        (
          read_full-append room 16 b ip r l (omega (arith, h)),
          ◌>>=◌,
          bytes_from_end-append 16 b ip l (omega arith),
          ip_address-ipv6 ip l m,
        )
        refl
  read_family-body (domain_address text) b r f h =
      rw
        (
          small_mod (length text) f.1,
          read_full-append room 1 b (length text ∷ []) (text ++ r) refl (omega (arith, h)),
          ◌>>=◌,
          last_byte-append b (length text),
          ◌>>=◌,
          read_full-append room (length text) (b ++ (length text ∷ [])) text r refl
              (omega (arith, h, f.1, length-append b (length text ∷ []))),
          ◌>>=◌,
          bytes_from_end-append (length text) (b ++ (length text ∷ [])) text refl f.0,
          read_domain-valid text f,
          ◌>>=◌,
          append_assoc b (length text ∷ []) text,
        )
        refl

  read_address-put :
      (p : AddressParser) (a : Address) (tb : ℕ) (b r : List ℕ)
      → IsAddressParser p
      → p.byte_of (family a) ≡ some tb
      → Fits a
      → length b + 257 ≤ room
      → read_address room parse_ip trim_space p (b, tb ∷ (body a ++ r))
        ≡ ok (a, (b ++ (tb ∷ body a), r))
  unfolding read_address
  read_address-put p a tb b r law t f h =
      rw
        (
          read_full-append room 1 b (tb ∷ []) (body a ++ r) refl (omega (arith, h)),
          ◌>>=◌,
          last_byte-append b tb,
          ◌>>=◌,
          law.small (family a) tb t,
          law.reads_back (family a) tb t,
          read_family-body a (b ++ (tb ∷ [])) r f (omega (arith, h, length-append b (tb ∷ []))),
          append_assoc b (tb ∷ []) (body a),
        )
        refl

  length-body : (a : Address) → Fits a → length (body a) ≤ 256
  unfolding Fits body
  length-body (ipv4 ip) l = omega (arith, l)
  length-body (ipv6 ip) (l, _) = omega (arith, l)
  length-body (domain_address text) (_, l, _, _) = omega (arith, l)

  put_address-body : (tb : ℕ) (a : Address) → Fits a → put_address tb a ≡ ok (tb ∷ body a)
  unfolding Fits body put_address
  put_address-body tb (ipv4 ip) f = refl
  put_address-body tb (ipv6 ip) f = refl
  put_address-body tb (domain_address text) (_, l, _, _) =
      rw (le→ltb_false 256 (length text) (omega (arith, l))) refl

  write_address-body :
      (p : AddressParser) (a : Address) (tb : ℕ)
      → p.byte_of (family a) ≡ some tb
      → Fits a
      → write_address p a ≡ ok (tb ∷ body a)
  unfolding write_address put_by
  write_address-body p a tb t f = ap (λ o. put_by o a) t ∙ put_address-body tb a f

  -- An address that fits, of a family that the parser has a byte for, and a port are written by
  -- the parser that has the port first, and what is written, whatever follows it, is read back by
  -- the same parser into a buffer with 259 bytes of room, as the address and the port, and leaves
  -- what follows in the reader. The parser maps each byte that it writes to its family.
  pub read_port_first-write :
      (p : AddressParser) (a : Address) (tb port : ℕ) (buffer rest : List ℕ)
      → IsAddressParser p
      → p.byte_of (family a) ≡ some tb
      → Fits a
      → IsU16 port
      → length buffer + 259 ≤ room
      → (w : List ℕ) × (write_port_first p a port ≡ ok w)
        × (read_port_first room parse_ip trim_space p buffer (w ++ rest) ≡ ok (a, port, rest))
  unfolding write_port_first read_port_first
  read_port_first-write p a tb port buffer rest law t f u h = (
    put_u16 port ++ (tb ∷ body a),
    rw (write_address-body p a tb t f, ◌>>=◌) refl,
    rw
        (
          append_assoc (put_u16 port) (tb ∷ body a) rest,
          read_port-put room parse_ip trim_space port buffer (tb ∷ (body a ++ rest)) u
              (omega (arith, h)),
          ◌>>=◌,
          read_address-put p a tb (buffer ++ put_u16 port) rest law t f
              (omega (arith, h, length-append buffer (put_u16 port), length-put_u16 port)),
          ◌>>=◌,
        )
        refl,
  )

  -- An address that fits, of a family that the parser has a byte for, and a port are written by
  -- the parser that has the port last, and what is written, whatever follows it, is read back by
  -- the same parser into a buffer with 259 bytes of room, as the address and the port, and leaves
  -- what follows in the reader. The parser maps each byte that it writes to its family.
  pub read_port_last-write :
      (p : AddressParser) (a : Address) (tb port : ℕ) (buffer rest : List ℕ)
      → IsAddressParser p
      → p.byte_of (family a) ≡ some tb
      → Fits a
      → IsU16 port
      → length buffer + 259 ≤ room
      → (w : List ℕ) × (write_port_last p a port ≡ ok w)
        × (read_port_last room parse_ip trim_space p buffer (w ++ rest) ≡ ok (a, port, rest))
  unfolding write_port_last read_port_last
  read_port_last-write p a tb port buffer rest law t f u h = (
    (tb ∷ body a) ++ put_u16 port,
    rw (write_address-body p a tb t f, ◌>>=◌) refl,
    rw
        (
          append_assoc (body a) (put_u16 port) rest,
          read_address-put p a tb buffer (put_u16 port ++ rest) law t f (omega (arith, h)),
          ◌>>=◌,
          read_port-put room parse_ip trim_space port (buffer ++ (tb ∷ body a)) rest u
              (omega (arith, h, length-append buffer (tb ∷ body a), length-body a f)),
          ◌>>=◌,
        )
        refl,
  )
