-- ===== src/Kcp/Crypt/Tests.antt =====
-- The theorems on SimpleAuthenticator at concrete inputs, and what it computes there.
use gzv2ray_v.Kcp.Crypt.{seal, seal_at, unseal, fnv_32a, value}
use gzv2ray_v.Kcp.Crypt.Contract.{unseal-seal_at}
use gzv2ray_v.Kcp.Crypt.Opens.{unseal_accepts}
use gzv2ray_v.Prelude.{
  ℕ, none, some, refl, arith, [], ◌∷◌, ◌≡◌, length, List, Option, ◌+◌, ◌↔◌, ◌<◌, ◌^◌,
}

-- The published value of FNV-1a for the text "a".
fnv_32a-a : fnv_32a (97 ∷ []) ≡ 0xe40c292c
unfolding fnv_32a
fnv_32a-a = refl

unseal-seal_at_example :
    (length (seal_at 8 (1 ∷ 2 ∷ [])) ≡ 6 + 2)
    × (unseal (seal_at 8 (1 ∷ 2 ∷ [])) ≡ value (some (1 ∷ 2 ∷ [])))
unseal-seal_at_example = unseal-seal_at 8 (1 ∷ 2 ∷ []) (omega arith) (omega arith)

abbrev forged : List ℕ
forged = 1 ∷ 2 ∷ 3 ∷ 4 ∷ 5 ∷ 6 ∷ 7 ∷ []

unseal_accepts_example :
    (r : Option (List ℕ)) × (unseal forged ≡ value r)
    × ((plain : List ℕ) → (r ≡ some plain) ↔ ((length plain < 2 ^ 16) × (forged ≡ seal plain)))
unseal_accepts_example =
    unseal_accepts forged
      (
        omega arith,
        (
          omega arith,
          (omega arith, (omega arith, (omega arith, (omega arith, (omega arith, tt))))),
        ),
      )
      (omega arith)

unseal-forged : unseal forged ≡ value none
unfolding unseal gzv2ray_v.Kcp.Crypt.verify gzv2ray_v.Kcp.Go.slice_from gzv2ray_v.Kcp.Crypt.xorbkd
    gzv2ray_v.Kcp.Crypt.xorbkd_loop gzv2ray_v.Kcp.Crypt.padded gzv2ray_v.Kcp.Crypt.zeros
    gzv2ray_v.Kcp.Go.slice_to gzv2ray_v.Kcp.Go.u32 fnv_32a
unseal-forged = refl

-- One byte of room too few for the whole words: what is left in `dst` does not open.
unseal-short_room : unseal (seal_at 7 (5 ∷ [])) ≡ value none
unfolding unseal gzv2ray_v.Kcp.Crypt.verify gzv2ray_v.Kcp.Go.slice_from seal_at
    gzv2ray_v.Kcp.Crypt.padded gzv2ray_v.Kcp.Crypt.authenticated gzv2ray_v.Kcp.Go.put_u32
    gzv2ray_v.Kcp.Go.put_u16 gzv2ray_v.Kcp.Crypt.zeros gzv2ray_v.Kcp.Crypt.xorbkd
    gzv2ray_v.Kcp.Crypt.xorbkd_loop gzv2ray_v.Kcp.Go.slice_to gzv2ray_v.Kcp.Go.u32 fnv_32a
unseal-short_room = refl
