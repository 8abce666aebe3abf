-- ===== src/Protocol/Address/Tests.antt =====
-- The address parser of VMess, port first, on a domain and on an IPv4 address.
use gzv2ray_v.Protocol.Address.{
  family, AddressParser, Family, ok, domain_address, ipv4, family_ipv4, family_ipv6, family_domain,
  is_valid_domain, read_port_first, read_port_last, write_port_first, write_port_last,
}
use gzv2ray_v.Protocol.Address.RoundTrip.{
  IsAddressParser, Fits, read_port_first-write, read_port_last-write,
}
use gzv2ray_v.Protocol.Address.LongDomain.{long_domain_lost}
use gzv2ray_v.Prelude.{
  ℕ, refl, arith, [], ◌∷◌, List, ◌++◌, Option, ◌≡◌, some, none, ◌==◌, if◌then◌else◌, leb, false,
  suc, zero, ap, ◌∙◌, sym,
}

abbrev byte_of : Family → Option ℕ
byte_of family_ipv4 = some 1
byte_of family_domain = some 2
byte_of family_ipv6 = some 3

abbrev family_of : ℕ → Option Family
family_of n =
    if n == 1
    then some family_ipv4
    else if n == 2
    then some family_domain
    else if n == 3
    then some family_ipv6
    else none

abbrev parser : AddressParser
parser = record { family_of = family_of; byte_of = byte_of; type_parser = λ n. n }

abbrev or_zero : Option ℕ → ℕ
or_zero none = 0
or_zero (some n) = n

small_at : (f : Family) → leb 16 (or_zero (byte_of f)) ≡ false
small_at family_ipv4 = refl
small_at family_domain = refl
small_at family_ipv6 = refl

back_at : (f : Family) → family_of (or_zero (byte_of f)) ≡ some f
back_at family_ipv4 = refl
back_at family_domain = refl
back_at family_ipv6 = refl

parser-IsAddressParser : IsAddressParser parser
parser-IsAddressParser = record {
  small = λ f tb e. ap (λ o. leb 16 (or_zero o)) (sym e) ∙ small_at f;
  reads_back = λ f tb e. ap (λ o. family_of (or_zero o)) (sym e) ∙ back_at f;
}

abbrev never_ip : List ℕ → Option (List ℕ)
never_ip _ = none

abbrev same_text : List ℕ → List ℕ
same_text t = t

abbrev text : List ℕ
text = 97 ∷ 46 ∷ 98 ∷ []

text-Fits : Fits 2048 never_ip same_text (domain_address text)
unfolding Fits is_valid_domain
text-Fits = (omega arith, omega arith, refl, refl)

read_port_first-write_example :
    (w : List ℕ) × (write_port_first parser (domain_address text) 443 ≡ ok w)
    × (read_port_first 2048 never_ip same_text parser (9 ∷ []) (w ++ (5 ∷ []))
        ≡ ok (domain_address text, 443, 5 ∷ []))
unfolding family
read_port_first-write_example =
    read_port_first-write 2048 never_ip same_text parser (domain_address text) 2 443 (9 ∷ [])
      (5 ∷ []) parser-IsAddressParser refl text-Fits (omega arith) (omega arith)

local-Fits : Fits 2048 never_ip same_text (ipv4 (127 ∷ 0 ∷ 0 ∷ 1 ∷ []))
unfolding Fits is_valid_domain
local-Fits = refl

read_port_last-write_example :
    (w : List ℕ) × (write_port_last parser (ipv4 (127 ∷ 0 ∷ 0 ∷ 1 ∷ [])) 80 ≡ ok w)
    × (read_port_last 2048 never_ip same_text parser [] (w ++ (7 ∷ []))
        ≡ ok (ipv4 (127 ∷ 0 ∷ 0 ∷ 1 ∷ []), 80, 7 ∷ []))
unfolding family
read_port_last-write_example =
    read_port_last-write 2048 never_ip same_text parser (ipv4 (127 ∷ 0 ∷ 0 ∷ 1 ∷ [])) 1 80 []
      (7 ∷ []) parser-IsAddressParser refl local-Fits (omega arith) (omega arith)

abbrev repeated : ℕ → List ℕ
repeated zero = []
repeated (suc n) = 97 ∷ repeated n

long_domain_lost_example :
    (w : List ℕ) × (write_port_first parser (domain_address (repeated 256)) 443 ≡ ok w)
    × ¬ (
        read_port_first 2048 never_ip same_text parser [] (w ++ [])
        ≡ ok (domain_address (repeated 256), 443, []))
long_domain_lost_example =
    long_domain_lost 2048 never_ip same_text parser (repeated 256) [] [] 2 443
      parser-IsAddressParser refl refl (omega arith) (omega arith)
