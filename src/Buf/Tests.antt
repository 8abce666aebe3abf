-- ===== src/Buf/Tests.antt =====
-- The theorems on common/buf at concrete inputs.
use gzv2ray_v.Prelude.{◌≡◌, [], ◌∷◌, ◌++◌}
use gzv2ray_v.Buf.{MultiBuffer, split_bytes, bytes, bytes-split_bytes}

abbrev two_buffers : MultiBuffer
two_buffers = (1 ∷ 2 ∷ []) ∷ (3 ∷ 4 ∷ []) ∷ []

bytes-split_bytes_example :
    (split_bytes two_buffers 3).1 ++ bytes (split_bytes two_buffers 3).0 ≡ bytes two_buffers
bytes-split_bytes_example = bytes-split_bytes two_buffers 3
