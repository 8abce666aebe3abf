-- ===== src/Kcp/ReceivingWindow.antt =====
-- transport/internet/kcp/receiving.go: the segments that arrived and are not read yet, by number.
use gzv2ray_v.Prelude.{ℕ, true, false, none, some, List, Bool, Option}
use gzv2ray_v.Prelude.Dict.{lookup, insert, delete}
use gzv2ray_v.Kcp.Segment.{DataSegment}

-- `ReceivingWindow.cache`
abbrev pub ReceivingWindow : Type 0
ReceivingWindow = List (ℕ × DataSegment)

-- Go's `Set`: false, and no change, if the number is there.
unfoldable pub set : ReceivingWindow → ℕ → DataSegment → ReceivingWindow × Bool
set w id v = elim (lookup id w) [ some _ ↦ (w, false) | none ↦ (insert id v w, true) ]

unfoldable pub has : ReceivingWindow → ℕ → Bool
has w id = elim (lookup id w) [ some _ ↦ true | none ↦ false ]

unfoldable pub remove : ReceivingWindow → ℕ → ReceivingWindow × Option DataSegment
remove w id = elim (lookup id w) [ some v ↦ (delete id w, some v) | none ↦ (w, none) ]
