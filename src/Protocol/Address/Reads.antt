-- ===== src/Protocol/Address/Reads.antt =====
-- What the reads of ReadAddressPort find in a buffer and a reader that hold the bytes.
use gzv2ray_v.Protocol.Address.{
  ok, panics, ◌>>=◌, read_full, bytes_from_end, last_byte, port_from_bytes, byte_at_start,
  read_port,
}
use gzv2ray_v.Kcp.Go.{put_u16, u16, value, panic, IsU16}
use gzv2ray_v.Kcp.Go.Slices.{u16-put_u16, length-put_u16}
use gzv2ray_v.Prelude.{
  ℕ, refl, arith, [], ◌∷◌, List, length, ◌++◌, Option, ◌≡◌, ◌<◌, le→ltb_false, pos→==_false,
  length-append, ap, take-append_length, drop, drop-append_length, ◌-◌, ◌∙◌, append-nil, ◌≤◌, ◌+◌,
  sym,
}

-- What is behind in a buffer that ends in so many bytes.
pub bytes_from_end-append :
    (n : ℕ) (b x : List ℕ) → length x ≡ n → 0 < n → bytes_from_end n (b ++ x) ≡ x
unfolding bytes_from_end
bytes_from_end-append n b x l p = rw (pos→==_false n p) (
    ap (λ m. drop m (b ++ x)) {x = length (b ++ x) - n} {y = length b}
      (omega (arith, length-append b x, l))
    ∙ drop-append_length b x)

pub read_full-append :
    (room n : ℕ) (b x r : List ℕ)
    → length x ≡ n
    → length b + n ≤ room
    → read_full room n (b, x ++ r) ≡ ok (b ++ x, r)
unfolding read_full
read_full-append room n b x r l h =
    rw
      (
        ← l,
        le→ltb_false room (length b + length x) (omega (arith, l, h)),
        le→ltb_false (length (x ++ r)) (length x) (omega (arith, length-append x r)),
        take-append_length,
        drop-append_length,
      )
      refl

pub last_byte-append : (b : List ℕ) (x : ℕ) → last_byte (b ++ (x ∷ [])) ≡ ok x
unfolding last_byte byte_at_start
last_byte-append b x = ap byte_at_start (bytes_from_end-append 1 b (x ∷ []) refl (omega arith))

port_from_bytes-put :
    (b : List ℕ) (port : ℕ)
    → IsU16 port
    → port_from_bytes (bytes_from_end 2 (b ++ put_u16 port)) ≡ ok port
unfolding port_from_bytes
port_from_bytes-put b port l =
    ap port_from_bytes
      (bytes_from_end-append 2 b (put_u16 port) (length-put_u16 port) (omega arith))
    ∙ ap (λ g. elim g [ value x ↦ ok x | panic ↦ panics ])
        (ap u16 (sym (append-nil (put_u16 port))) ∙ u16-put_u16 port [] l)

module _ (room : ℕ) (parse_ip : List ℕ → Option (List ℕ)) (trim_space : List ℕ → List ℕ) where
  pub read_port-put :
      (port : ℕ) (b r : List ℕ)
      → IsU16 port
      → length b + 2 ≤ room
      → read_port room parse_ip trim_space (b, put_u16 port ++ r)
        ≡ ok (port, (b ++ put_u16 port, r))
  unfolding read_port
  read_port-put port b r l h =
      rw
        (
          read_full-append room 2 b (put_u16 port) r (length-put_u16 port) h,
          ◌>>=◌,
          port_from_bytes-put b port l,
          ◌>>=◌,
        )
        refl
