-- ===== src/Protocol/Address/LongDomain.antt =====
-- A domain of 256 bytes, which isDomainTooLong lets pass, has a length byte of zero.
use gzv2ray_v.Protocol.Address.{
  Address, AddressParser, Outcome, ok, error, panics, domain_address, ◌>>=◌, family_domain, family,
  bytes_from_end, read_domain, read_family, read_address, read_port_first, put_by, put_address,
  write_address, write_port_first,
}
use gzv2ray_v.Protocol.Address.RoundTrip.{IsAddressParser}
use gzv2ray_v.Protocol.Address.Reads.{read_full-append, last_byte-append, read_port-put}
use gzv2ray_v.Kcp.Go.{put_u16, IsU16}
use gzv2ray_v.Kcp.Go.Slices.{length-put_u16}
use gzv2ray_v.Prelude.{
  ℕ, refl, arith, [], ◌∷◌, List, length, ◌++◌, Option, ◌≡◌, ◌≤◌, length-append, ap, ◌∙◌, some, sym,
  append_assoc, ◌+◌,
}

remaining : Outcome (Address × ℕ × List ℕ) → List ℕ
remaining (ok (a, port, r)) = r
remaining _ = []

abbrev with_state : List ℕ × List ℕ → Address → Outcome (Address × (List ℕ × List ℕ))
with_state s a = ok (a, s)

abbrev with_port : ℕ → Address × (List ℕ × List ℕ) → Outcome (Address × ℕ × List ℕ)
with_port port (a, (b, r)) = ok (a, port, r)

-- What the reader still has does not depend on the domain that was found.
left_behind :
    (o : Outcome Address) (b r rest : List ℕ) (port port' : ℕ) (x : Address)
    → ((o >>= with_state (b, r)) >>= with_port port) ≡ ok (x, port', rest)
    → r ≡ rest
unfolding remaining
left_behind (ok a) b r rest port port' x e = ap remaining e
left_behind error b r rest port port' x e = absurd (cc e)
left_behind panics b r rest port port' x e = absurd (cc e)

-- The buffer behind the type and the length of the domain.
abbrev met : List ℕ → ℕ → List ℕ
met b tb = ((b ++ (tb ∷ [])) ++ (0 ∷ [])) ++ []

module _ (room : ℕ) (parse_ip : List ℕ → Option (List ℕ)) (trim_space : List ℕ → List ℕ) where
  read_address-zero :
      (p : AddressParser) (tb : ℕ) (b r : List ℕ)
      → IsAddressParser p
      → p.byte_of family_domain ≡ some tb
      → length b + 2 ≤ room
      → read_address room parse_ip trim_space p (b, tb ∷ 0 ∷ r) ≡ (
          read_domain room parse_ip trim_space (((b ++ (tb ∷ [])) ++ (0 ∷ [])) ++ [])
          >>= (λ a. ok (a, (((b ++ (tb ∷ [])) ++ (0 ∷ [])) ++ [], r))))
  unfolding read_address read_family bytes_from_end
  read_address-zero p tb b r law t h =
      rw
        (
          read_full-append room 1 b (tb ∷ []) (0 ∷ r) refl (omega (arith, h)),
          ◌>>=◌,
          last_byte-append b tb,
          ◌>>=◌,
          law.small family_domain tb t,
          law.reads_back family_domain tb t,
          read_full-append room 1 (b ++ (tb ∷ [])) (0 ∷ []) r refl
              (omega (arith, h, length-append b (tb ∷ []))),
          ◌>>=◌,
          last_byte-append (b ++ (tb ∷ [])) 0,
          ◌>>=◌,
          read_full-append room 0 ((b ++ (tb ∷ [])) ++ (0 ∷ [])) [] r refl (
              omega (arith, h, length-append b (tb ∷ []), length-append (b ++ (tb ∷ [])) (0 ∷ []))),
        )
        refl

  read_port_first-zero :
      (p : AddressParser) (text b rest : List ℕ) (tb port : ℕ)
      → IsAddressParser p
      → p.byte_of family_domain ≡ some tb
      → IsU16 port
      → length b + 4 ≤ room
      → read_port_first room parse_ip trim_space p b ((put_u16 port ++ (tb ∷ 0 ∷ text)) ++ rest) ≡ (
          (read_domain room parse_ip trim_space (met (b ++ put_u16 port) tb)
            >>= with_state (met (b ++ put_u16 port) tb, text ++ rest))
          >>= with_port port)
  unfolding read_port_first
  read_port_first-zero p text b rest tb port law t u h =
      rw
        (
          append_assoc (put_u16 port) (tb ∷ 0 ∷ text) rest,
          read_port-put room parse_ip trim_space port b (tb ∷ 0 ∷ (text ++ rest)) u
              (omega (arith, h)),
          ◌>>=◌,
          read_address-zero p tb (b ++ put_u16 port) (text ++ rest) law t
              (omega (arith, h, length-append b (put_u16 port), length-put_u16 port)),
        )
        refl

  -- A domain of 256 bytes is written, for a parser that has a byte for domains and maps it back,
  -- and what is written, whatever follows it, is not read back as this domain and port with what
  -- follows left in the reader.
  pub long_domain_lost :
      (p : AddressParser) (text buffer rest : List ℕ) (tb port : ℕ)
      → IsAddressParser p
      → p.byte_of family_domain ≡ some tb
      → length text ≡ 256
      → IsU16 port
      → length buffer + 4 ≤ room
      → (w : List ℕ) × (write_port_first p (domain_address text) port ≡ ok w)
        × ¬ (
            read_port_first room parse_ip trim_space p buffer (w ++ rest)
            ≡ ok (domain_address text, port, rest))
  unfolding write_port_first write_address put_by family put_address read_port_first
  long_domain_lost p text buffer rest tb port law t l u h = (
    put_u16 port ++ (tb ∷ 0 ∷ text),
    rw (t, l) refl,
    λ e.
        let kept : text ++ rest ≡ rest =
          left_behind (read_domain room parse_ip trim_space (met (buffer ++ put_u16 port) tb))
            (met (buffer ++ put_u16 port) tb) (text ++ rest) rest port port (domain_address text)
            (sym (read_port_first-zero p text buffer rest tb port law t u h) ∙ e) in
        omega (arith, ap length kept, length-append text rest, l),
  )
