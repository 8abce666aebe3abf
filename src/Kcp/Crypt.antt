-- ===== src/Kcp/Crypt.antt =====
-- transport/internet/kcp/crypt.go and xor.go: SimpleAuthenticator, the cipher.AEAD of a connection
-- that has no seed. `xor.go` is the code of every platform but amd64, which has the same functions
-- in assembly.
pub mod Words
pub mod Opens
pub mod Contract
mod Tests
use gzv2ray_v.Kcp.Go.{Go, value, ◌>>=◌, put_u16, put_u32, u16, u32, slice_from, slice_to}
use gzv2ray_v.Kcp.Packet.{Aead}
use gzv2ray_v.Prelude.{
  bit_xor, ℕ, zero, suc, none, some, [], ◌∷◌, List, ◌*◌, ◌+◌, length, ◌-◌, take, if◌then◌else◌,
  Option, ◌%◌, set, ltb, not, ◌^◌, get_or, ◌==◌, ◌++◌,
}

-- hash/fnv's New32a: FNV-1a of 32 bits.
unfoldable pub fnv_from : ℕ → List ℕ → ℕ
fnv_from h [] = h
fnv_from h (b ∷ bytes) = fnv_from (bit_xor h b * 16777619 % 2 ^ 32) bytes

unfoldable pub fnv_32a : List ℕ → ℕ
unfolding fnv_from
fnv_32a bytes = fnv_from 2166136261 bytes

-- `xorfwd`: `i` goes up from 4.
unfoldable pub xorfwd_loop : ℕ → ℕ → List ℕ → List ℕ
xorfwd_loop zero i x = x
xorfwd_loop (suc rounds) i x =
    xorfwd_loop rounds (i + 1) (set x i (bit_xor (get_or x i 0) (get_or x (i - 4) 0)))

unfoldable pub xorfwd : List ℕ → List ℕ
xorfwd x = xorfwd_loop (length x - 4) 4 x

-- `xorbkd`: `i` goes down to 4, and is 4 more than the rounds that are left behind it.
unfoldable pub xorbkd_loop : ℕ → List ℕ → List ℕ
xorbkd_loop zero x = x
xorbkd_loop (suc rounds) x =
    let i = rounds + 4 in xorbkd_loop rounds (set x i (bit_xor (get_or x i 0) (get_or x (i - 4) 0)))

unfoldable pub xorbkd : List ℕ → List ℕ
xorbkd x = xorbkd_loop (length x - 4) x

unfoldable pub zeros : ℕ → List ℕ
zeros zero = []
zeros (suc n) = 0 ∷ zeros n

-- The zeros that make the length a multiple of 4.
unfoldable pub padded : List ℕ → List ℕ
padded dst = let xtra = 4 - length dst % 4 in if xtra == 4 then dst else dst ++ zeros xtra

-- `dst` of `Seal` before the words are chained: the hash, the length and the plain bytes.
unfoldable pub authenticated : List ℕ → List ℕ
authenticated plain =
    let covered = put_u16 (length plain % 2 ^ 16) ++ plain in put_u32 (fnv_32a covered) ++ covered

-- `Seal`: what it returns.
unfoldable pub seal : List ℕ → List ℕ
seal plain = let dst = authenticated plain in take (length dst) (xorfwd (padded dst))

-- What `Seal` leaves in the memory of its `dst`, which has room for `capacity` bytes: where the
-- zeros do not fit, `append` moves to other memory before the words are chained.
unfoldable pub seal_at : ℕ → List ℕ → List ℕ
seal_at capacity plain =
    if ltb capacity (length (padded (authenticated plain))) then authenticated plain else seal plain

-- `Open` behind `xorbkd`, on its `dst`. The capacity of a slice is taken to be its length.
unfoldable pub verify : List ℕ → Go (Option (List ℕ))
verify dst = do
  covered ← slice_from 4 dst
  head ← slice_to 4 dst
  sum ← u32 head
  if not (sum == fnv_32a covered) then value none else do
    size ← slice_to 2 covered
    n ← u16 size
    if not (length dst == 6 + n)
        then value none
        else do plain ← slice_from 6 dst; value (some plain)

-- `Open`: `none` is the error.
unfoldable pub unseal : List ℕ → Go (Option (List ℕ))
unseal cipher_text = verify (take (length cipher_text) (xorbkd (padded cipher_text)))

-- `NonceSize` and `Overhead` with these.
unfoldable pub simple_authenticator : Aead
simple_authenticator = record {
  nonce_size = 0;
  overhead = 6;
  seal = λ capacity nonce plain. seal_at capacity plain;
  unseal = λ nonce cipher_text. unseal cipher_text;
}
