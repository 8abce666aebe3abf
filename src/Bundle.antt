-- ===== src/Bundle.antt =====
-- release/extra/browserforwarder/index.js: the page's bundle, a table `$packages` of package objects
-- and the order in which they are initialised. A package is named by its import path; its `$init`
-- first replaces itself by an empty function, then calls the `$init` of what it imports, in order,
-- and then runs its own initialisers. What the packages do beside that is not modelled, nor that a
-- goroutine can be suspended in between, which the compiler's `$f`, `$c` and `$s` are for.
pub mod Table
pub mod Order
mod Tests
use gzv2ray_v.Prelude.{ℕ, zero, suc, true, false, [], ◌∷◌, List, Bool, if◌then◌else◌, ◌==◌}

-- The packages, in the order of the table.
pub data Package : Type 0 where
  gopherjs_js internal_cpu internal_bytealg runtime_internal_sys runtime errors math_bits math
        unicode_utf8 strconv internal_race sync_atomic sync unicode reflect sort internal_fmtsort io
        syscall gopherjs_nosync time internal_poll internal_syscall_unix internal_testlog os fmt
        bytes encoding_binary strings regexp_syntax regexp lunixbochs_struc proto
        gopherjs_websocket_websocketjs context internal_nettrace internal_singleflight
        internal_x_net_dns_dnsmessage math_rand net net_url gopherjs_websocket container_heap
        xtaci_smux bridge log bridge_bridgejs :
      Package

-- The position in the table.
abbrev pub position : Package → ℕ
position gopherjs_js = 0
position internal_cpu = 1
position internal_bytealg = 2
position runtime_internal_sys = 3
position runtime = 4
position errors = 5
position math_bits = 6
position math = 7
position unicode_utf8 = 8
position strconv = 9
position internal_race = 10
position sync_atomic = 11
position sync = 12
position unicode = 13
position reflect = 14
position sort = 15
position internal_fmtsort = 16
position io = 17
position syscall = 18
position gopherjs_nosync = 19
position time = 20
position internal_poll = 21
position internal_syscall_unix = 22
position internal_testlog = 23
position os = 24
position fmt = 25
position bytes = 26
position encoding_binary = 27
position strings = 28
position regexp_syntax = 29
position regexp = 30
position lunixbochs_struc = 31
position proto = 32
position gopherjs_websocket_websocketjs = 33
position context = 34
position internal_nettrace = 35
position internal_singleflight = 36
position internal_x_net_dns_dnsmessage = 37
position math_rand = 38
position net = 39
position net_url = 40
position gopherjs_websocket = 41
position container_heap = 42
position xtaci_smux = 43
position bridge = 44
position log = 45
position bridge_bridgejs = 46

-- The calls `$r=X.$init()` in the body of `$init`, in order.
abbrev pub imports : Package → List Package
imports gopherjs_js = []
imports internal_cpu = []
imports internal_bytealg = internal_cpu ∷ []
imports runtime_internal_sys = []
imports runtime = gopherjs_js ∷ internal_bytealg ∷ runtime_internal_sys ∷ []
imports errors = []
imports math_bits = []
imports math = gopherjs_js ∷ math_bits ∷ []
imports unicode_utf8 = []
imports strconv = errors ∷ internal_bytealg ∷ math ∷ math_bits ∷ unicode_utf8 ∷ []
imports internal_race = []
imports sync_atomic = gopherjs_js ∷ []
imports sync = gopherjs_js ∷ internal_race ∷ runtime ∷ sync_atomic ∷ []
imports unicode = []
imports reflect =
    errors ∷ gopherjs_js ∷ math ∷ runtime ∷ strconv ∷ sync ∷ unicode ∷ unicode_utf8 ∷ []
imports sort = reflect ∷ []
imports internal_fmtsort = reflect ∷ sort ∷ []
imports io = errors ∷ sync ∷ sync_atomic ∷ []
imports syscall = gopherjs_js ∷ internal_race ∷ runtime ∷ sync ∷ []
imports gopherjs_nosync = []
imports time = errors ∷ gopherjs_js ∷ gopherjs_nosync ∷ runtime ∷ syscall ∷ []
imports internal_poll = errors ∷ io ∷ runtime ∷ sync_atomic ∷ syscall ∷ time ∷ []
imports internal_syscall_unix = sync_atomic ∷ syscall ∷ []
imports internal_testlog = sync_atomic ∷ []
imports os =
    errors ∷ gopherjs_js ∷ internal_poll ∷ internal_syscall_unix ∷ internal_testlog ∷ io ∷ runtime
    ∷ sync ∷ sync_atomic ∷ syscall ∷ time ∷ []
imports fmt =
    errors ∷ internal_fmtsort ∷ io ∷ math ∷ os ∷ reflect ∷ strconv ∷ sync ∷ unicode_utf8 ∷ []
imports bytes = errors ∷ internal_bytealg ∷ io ∷ unicode ∷ unicode_utf8 ∷ []
imports encoding_binary = errors ∷ io ∷ math ∷ reflect ∷ []
imports strings = errors ∷ gopherjs_js ∷ internal_bytealg ∷ io ∷ sync ∷ unicode ∷ unicode_utf8 ∷ []
imports regexp_syntax = sort ∷ strconv ∷ strings ∷ unicode ∷ unicode_utf8 ∷ []
imports regexp =
    bytes ∷ gopherjs_nosync ∷ io ∷ regexp_syntax ∷ sort ∷ strconv ∷ strings ∷ unicode ∷ unicode_utf8
    ∷ []
imports lunixbochs_struc =
    bytes ∷ encoding_binary ∷ errors ∷ fmt ∷ io ∷ math ∷ reflect ∷ regexp ∷ strconv ∷ strings ∷ sync
    ∷ []
imports proto = bytes ∷ lunixbochs_struc ∷ io ∷ []
imports gopherjs_websocket_websocketjs = gopherjs_js ∷ []
imports context = errors ∷ fmt ∷ reflect ∷ sync ∷ time ∷ []
imports internal_nettrace = []
imports internal_singleflight = sync ∷ []
imports internal_x_net_dns_dnsmessage = errors ∷ []
imports math_rand = gopherjs_nosync ∷ math ∷ []
imports net =
    context ∷ errors ∷ gopherjs_js ∷ internal_bytealg ∷ internal_nettrace ∷ internal_poll
    ∷ internal_singleflight ∷ internal_x_net_dns_dnsmessage ∷ io ∷ math_rand ∷ os ∷ runtime ∷ sort
    ∷ sync ∷ sync_atomic ∷ syscall ∷ time ∷ []
imports net_url = errors ∷ fmt ∷ sort ∷ strconv ∷ strings ∷ []
imports gopherjs_websocket =
    bytes ∷ fmt ∷ gopherjs_js ∷ gopherjs_websocket_websocketjs ∷ io ∷ net ∷ net_url ∷ time ∷ []
imports container_heap = sort ∷ []
imports xtaci_smux =
    container_heap ∷ encoding_binary ∷ errors ∷ fmt ∷ io ∷ math ∷ net ∷ sync ∷ sync_atomic ∷ time
    ∷ []
imports bridge = fmt ∷ proto ∷ gopherjs_websocket ∷ xtaci_smux ∷ io ∷ time ∷ []
imports log = fmt ∷ gopherjs_nosync ∷ io ∷ os ∷ runtime ∷ time ∷ []
imports bridge_bridgejs = fmt ∷ gopherjs_js ∷ bridge ∷ log ∷ net_url ∷ []

-- Which `$init` have been replaced, and which packages are initialised, the last one first.
pub record Loaded : Type 0 where
  pub called : List Package
  pub initialised : List Package

unfoldable pub contains : List Package → Package → Bool
contains [] p = false
contains (q ∷ ps) p = let rest = contains ps p in if position q == position p then true else rest

unfoldable pub init_each : (Package → Loaded → Loaded) → List Package → Loaded → Loaded
init_each call [] st = st
init_each call (p ∷ ps) st = init_each call ps (call p st)

-- `$pkg.$init()`. No chain of imports is longer than the table.
unfoldable pub init : ℕ → Package → Loaded → Loaded
unfolding init_each contains
init zero p st = st
init (suc fuel) p st =
    let st1 = init_each (init fuel) (imports p) (record st { called = p ∷ st.called }) in
    if contains st.called p then st else record st1 { initialised = p ∷ st1.initialised }

-- `$packages["runtime"].$init()` and `$go($mainPkg.$init, [])`.
unfoldable pub load : Loaded
unfolding init
load = init 47 bridge_bridgejs (init 47 runtime (record { called = []; initialised = [] }))
