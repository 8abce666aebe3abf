-- ===== src/Kcp/Crypt/Words.antt =====
-- `xorfwd` and `xorbkd` undo each other, also where what was added to fill a word is cut off.
use gzv2ray_v.Prelude.Bits.{bit_xor-bit_xor}
use native.Mathlib.Decide.{dec_lt, dec_le}
use gzv2ray_v.Kcp.Crypt.{xorfwd_loop, xorbkd_loop, xorfwd, xorbkd, padded, zeros}
use gzv2ray_v.Prelude.Entries.{get_or-set, get_or-take, same_entries, get_or-append}
use gzv2ray_v.Prelude.{
  ℕ, zero, suc, refl, arith, List, get_or, length, ◌≤◌, ◌≡◌, ◌+◌, set, ◌<◌, ◌-◌, if◌then◌else◌, ◌∙◌,
  ltb, length-set, inl, inr, Bool-cases, bit_xor, ◌==◌, ap, leb, ==_iff, ◌&&◌, [], take,
  length-take, ◌++◌, length-append, ◌%◌, sym, append-nil,
}

abbrev at : List ℕ → ℕ → ℕ
at x i = get_or x i 0

length-xorfwd_loop : (rounds i : ℕ) (x : List ℕ) → length (xorfwd_loop rounds i x) ≡ length x
unfolding xorfwd_loop
length-xorfwd_loop zero i x = refl
length-xorfwd_loop (suc rounds) i x =
    length-xorfwd_loop rounds (i + 1) (set x i (bit_xor (at x i) (at x (i - 4)))) ∙ length-set x i _

-- What the loop leaves: the bytes below its start, and above it each one's chaining.
xorfwd_loop-at :
    (rounds i : ℕ) (x : List ℕ) (j : ℕ)
    → 4 ≤ i
    → i + rounds ≡ length x
    → j < length x
    → at (xorfwd_loop rounds i x) j
      ≡ (if ltb j i then at x j else bit_xor (at x j) (at (xorfwd_loop rounds i x) (j - 4)))
unfolding xorfwd_loop
xorfwd_loop-at zero i x j p e l = ground arith
xorfwd_loop-at (suc rounds) i x j p e l =
    let v = bit_xor (at x i) (at x (i - 4)) in
    let n = length-set x i v in
    let here =
      xorfwd_loop-at rounds (i + 1) (set x i v) j (omega arith) (omega (arith, n))
        (omega (arith, n)) in
    let behind =
      xorfwd_loop-at rounds (i + 1) (set x i v) (i - 4) (omega arith) (omega (arith, n))
        (omega (arith, n)) in
    let wrote = get_or-set x i j v 0 (omega arith) in
    let kept = get_or-set x i (i - 4) v 0 (omega arith) in
    elim (Bool-cases (i == j)) [
      | inl same ↦ ground (
        arith,
        here,
        behind,
        wrote,
        kept,
        ap (λ k. at (xorfwd_loop rounds (i + 1) (set x i v)) (k - 4)) ((==_iff i j).0 same),
        ap (at x) ((==_iff i j).0 same),
      )
      | inr other ↦ ground (arith, here, wrote)
    ]

length-xorbkd_loop : (rounds : ℕ) (x : List ℕ) → length (xorbkd_loop rounds x) ≡ length x
unfolding xorbkd_loop
length-xorbkd_loop zero x = refl
length-xorbkd_loop (suc rounds) x =
    length-xorbkd_loop rounds
      (set x (rounds + 4) (bit_xor (at x (rounds + 4)) (at x (rounds + 4 - 4))))
    ∙ length-set x (rounds + 4) _

-- The loop takes each of its bytes together with the one four before, which it has not reached yet.
xorbkd_loop-at :
    (rounds : ℕ) (x : List ℕ) (j : ℕ)
    → rounds + 4 ≤ length x
    → j < length x
    → at (xorbkd_loop rounds x) j
      ≡ (if leb 4 j && ltb j (rounds + 4) then bit_xor (at x j) (at x (j - 4)) else at x j)
unfolding xorbkd_loop
xorbkd_loop-at zero x j e l = ground arith
xorbkd_loop-at (suc rounds) x j e l =
    let i = rounds + 4 in
    let v = bit_xor (at x i) (at x (i - 4)) in
    let n = length-set x i v in
    let here = xorbkd_loop-at rounds (set x i v) j (omega (arith, n)) (omega (arith, n)) in
    let wrote = get_or-set x i j v 0 (omega arith) in
    let kept = get_or-set x i (j - 4) v 0 (omega arith) in
    elim (Bool-cases (i == j)) [
      | inl same ↦ ground (
        arith,
        here,
        wrote,
        ap (λ k. at x (k - 4)) ((==_iff i j).0 same),
        ap (at x) ((==_iff i j).0 same),
      )
      | inr other ↦ ground (arith, here, wrote, kept)
    ]

length-xorfwd : (x : List ℕ) → length (xorfwd x) ≡ length x
unfolding xorfwd
length-xorfwd x = length-xorfwd_loop (length x - 4) 4 x

xorfwd-at :
    (x : List ℕ) (j : ℕ)
    → j < length x
    → at (xorfwd x) j ≡ (if ltb j 4 then at x j else bit_xor (at x j) (at (xorfwd x) (j - 4)))
unfolding xorfwd xorfwd_loop
xorfwd-at x j l = elim (dec_le 4 (length x)) [
  | yes p ↦ xorfwd_loop-at (length x - 4) 4 x j (omega arith) (omega arith) l
  | no p ↦ few (length x - 4) (omega arith) (omega arith)
]
  where
    few :
        (n : ℕ)
        → n ≡ 0
        → j < 4
        → at (xorfwd_loop n 4 x) j
          ≡ (if ltb j 4 then at x j else bit_xor (at x j) (at (xorfwd_loop n 4 x) (j - 4)))
    few zero e q = ground arith
    few (suc n) e q = absurd (omega arith)

length-xorbkd : (x : List ℕ) → length (xorbkd x) ≡ length x
unfolding xorbkd
length-xorbkd x = length-xorbkd_loop (length x - 4) x

xorbkd-at :
    (x : List ℕ) (j : ℕ)
    → j < length x
    → at (xorbkd x) j ≡ (if ltb j 4 then at x j else bit_xor (at x j) (at x (j - 4)))
unfolding xorbkd xorbkd_loop
xorbkd-at x j l = elim (dec_le 4 (length x)) [
  | yes p ↦ ground (arith, xorbkd_loop-at (length x - 4) x j (omega arith) l)
  | no p ↦ few (length x - 4) (omega arith) (omega arith)
]
  where
    few :
        (n : ℕ)
        → n ≡ 0
        → j < 4
        → at (xorbkd_loop n x) j ≡ (if ltb j 4 then at x j else bit_xor (at x j) (at x (j - 4)))
    few zero e q = ground arith
    few (suc n) e q = absurd (omega arith)

-- The added zeros stand behind what was there.
padded-append : (d : List ℕ) → (z : List ℕ) × (padded d ≡ d ++ z)
unfolding padded
padded-append d = elim (Bool-cases (4 - length d % 4 == 4)) [
  | inl e ↦ ([], rw e (sym (append-nil d)))
  | inr e ↦ (zeros (4 - length d % 4), rw e refl)
]

length-padded : (d : List ℕ) → length d ≤ length (padded d)
length-padded d = let (z, e) = padded-append d in rw e (omega (arith, length-append d z))

padded-at : (d : List ℕ) (j : ℕ) → j < length d → at (padded d) j ≡ at d j
padded-at d j l = let (z, e) = padded-append d in rw e (get_or-append d z j 0 l)

-- What `Seal` and `Open` do to the bytes.
abbrev pub chained : List ℕ → List ℕ
chained d = take (length d) (xorfwd (padded d))

abbrev pub unchained : List ℕ → List ℕ
unchained c = take (length c) (xorbkd (padded c))

pub length-chained : (d : List ℕ) → length (chained d) ≡ length d
length-chained d =
    omega
      (arith, length-take (length d) (xorfwd (padded d)), length-xorfwd (padded d), length-padded d)

pub length-unchained : (c : List ℕ) → length (unchained c) ≡ length c
length-unchained c =
    omega
      (arith, length-take (length c) (xorbkd (padded c)), length-xorbkd (padded c), length-padded c)

chained-at :
    (d : List ℕ) (j : ℕ)
    → j < length d
    → at (chained d) j ≡ (if ltb j 4 then at d j else bit_xor (at d j) (at (chained d) (j - 4)))
chained-at d j l = ground (
  arith,
  get_or-take (length d) (xorfwd (padded d)) j 0 l,
  get_or-take (length d) (xorfwd (padded d)) (j - 4) 0 (omega arith),
  xorfwd-at (padded d) j (omega (arith, length-padded d)),
  padded-at d j l,
)

pub unchained-at :
    (c : List ℕ) (j : ℕ)
    → j < length c
    → at (unchained c) j ≡ (if ltb j 4 then at c j else bit_xor (at c j) (at c (j - 4)))
unchained-at c j l = ground (
  arith,
  get_or-take (length c) (xorbkd (padded c)) j 0 l,
  xorbkd-at (padded c) j (omega (arith, length-padded c)),
  padded-at c j l,
  padded-at c (j - 4) (omega arith),
)

pub unchained-chained : (d : List ℕ) → unchained (chained d) ≡ d
unchained-chained d =
    same_entries (unchained (chained d)) d 0 (length-unchained (chained d) ∙ length-chained d)
      (λ j l.
        let m : j < length d = omega (arith, l, length-unchained (chained d), length-chained d) in
        ground (
          arith,
          unchained-at (chained d) j (omega (arith, length-chained d)),
          chained-at d j m,
          bit_xor-bit_xor (at d j) (at (chained d) (j - 4)),
        ))

-- By the bytes four before, which come first.
chained_again-at :
    (c : List ℕ) (bound j : ℕ) → j < bound → j < length c → at (chained (unchained c)) j ≡ at c j
chained_again-at c zero j p l = absurd (omega arith)
chained_again-at c (suc bound) j p l =
    let n = length-unchained c in
    let here = chained-at (unchained c) j (omega (arith, n)) in
    let below = unchained-at c j l in
    elim (dec_lt j 4) [
      | yes q ↦ ground (arith, here, below)
      | no q ↦ ground (
        arith,
        here,
        below,
        chained_again-at c bound (j - 4) (omega arith) (omega arith),
        bit_xor-bit_xor (at c j) (at c (j - 4)),
      )
    ]

pub chained-unchained : (c : List ℕ) → chained (unchained c) ≡ c
chained-unchained c =
    same_entries (chained (unchained c)) c 0 (length-chained (unchained c) ∙ length-unchained c)
      (λ j l.
        chained_again-at c (suc j) j (omega arith)
          (omega (arith, l, length-chained (unchained c), length-unchained c)))
