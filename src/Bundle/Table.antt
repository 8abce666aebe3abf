-- ===== src/Bundle/Table.antt =====
-- The table of release/extra/browserforwarder/index.js lists a package behind what it imports.
use gzv2ray_v.Prelude.{
  ℕ, refl, true, false, inl, inr, arith, [], Bool-cases, ◌∷◌, List, ◌≡◌, All, Bool, ◌<◌,
  if◌then◌else◌, ltb, ltb→lt,
}
use gzv2ray_v.Bundle.{
  Package, position, imports, gopherjs_js, internal_cpu, internal_bytealg, runtime_internal_sys,
  runtime, errors, math_bits, math, unicode_utf8, strconv, internal_race, sync_atomic, sync,
  unicode, reflect, sort, internal_fmtsort, io, syscall, gopherjs_nosync, time, internal_poll,
  internal_syscall_unix, internal_testlog, os, fmt, bytes, encoding_binary, strings, regexp_syntax,
  regexp, lunixbochs_struc, proto, gopherjs_websocket_websocketjs, context, internal_nettrace,
  internal_singleflight, internal_x_net_dns_dnsmessage, math_rand, net, net_url, gopherjs_websocket,
  container_heap, xtaci_smux, bridge, log, bridge_bridgejs,
}

-- Whether all positions in a list are below a bound.
unfoldable all_below : ℕ → List Package → Bool
all_below k [] = true
all_below k (p ∷ ps) = let rest = all_below k ps in if ltb (position p) k then rest else false

of_all_below : (k : ℕ) (ps : List Package) → all_below k ps ≡ true → All (λ q. position q < k) ps
unfolding all_below
of_all_below k [] h = tt
of_all_below k (p ∷ ps) h = elim (Bool-cases (ltb (position p) k)) [
  | inl e ↦ (ltb→lt _ _ e, of_all_below k ps (rw e at h))
  | inr e ↦ absurd (ground arith)
]

imports-all_below : (p : Package) → all_below (position p) (imports p) ≡ true
unfolding all_below
imports-all_below gopherjs_js = refl
imports-all_below internal_cpu = refl
imports-all_below internal_bytealg = refl
imports-all_below runtime_internal_sys = refl
imports-all_below runtime = refl
imports-all_below errors = refl
imports-all_below math_bits = refl
imports-all_below math = refl
imports-all_below unicode_utf8 = refl
imports-all_below strconv = refl
imports-all_below internal_race = refl
imports-all_below sync_atomic = refl
imports-all_below sync = refl
imports-all_below unicode = refl
imports-all_below reflect = refl
imports-all_below sort = refl
imports-all_below internal_fmtsort = refl
imports-all_below io = refl
imports-all_below syscall = refl
imports-all_below gopherjs_nosync = refl
imports-all_below time = refl
imports-all_below internal_poll = refl
imports-all_below internal_syscall_unix = refl
imports-all_below internal_testlog = refl
imports-all_below os = refl
imports-all_below fmt = refl
imports-all_below bytes = refl
imports-all_below encoding_binary = refl
imports-all_below strings = refl
imports-all_below regexp_syntax = refl
imports-all_below regexp = refl
imports-all_below lunixbochs_struc = refl
imports-all_below proto = refl
imports-all_below gopherjs_websocket_websocketjs = refl
imports-all_below context = refl
imports-all_below internal_nettrace = refl
imports-all_below internal_singleflight = refl
imports-all_below internal_x_net_dns_dnsmessage = refl
imports-all_below math_rand = refl
imports-all_below net = refl
imports-all_below net_url = refl
imports-all_below gopherjs_websocket = refl
imports-all_below container_heap = refl
imports-all_below xtaci_smux = refl
imports-all_below bridge = refl
imports-all_below log = refl
imports-all_below bridge_bridgejs = refl

pub imports_above : (p : Package) → All (λ q. position q < position p) (imports p)
imports_above p = of_all_below (position p) (imports p) (imports-all_below p)
