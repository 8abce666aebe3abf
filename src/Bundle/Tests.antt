-- ===== src/Bundle/Tests.antt =====
-- The initialisation of the bundle at concrete inputs.
use gzv2ray_v.Bundle.Order.{Initialises, IsLoaded, init-Initialises}
use gzv2ray_v.Prelude.{refl, arith, []}
use gzv2ray_v.Bundle.{Loaded, init, runtime, bridge_bridgejs, load, contains}

abbrev nothing : Loaded
nothing = record { called = []; initialised = [] }

nothing-IsLoaded : IsLoaded 47 nothing
unfolding contains
nothing-IsLoaded = record { ordered = tt; settled = λ q h. refl; called = λ q h. h }

init-Initialises_example : Initialises 47 runtime nothing (init 47 runtime nothing)
init-Initialises_example =
    init-Initialises 47 47 runtime nothing (omega arith) (omega arith) nothing-IsLoaded

-- What the last lines of the page do leaves the main package initialised.
load_main : Initialises 47 bridge_bridgejs (init 47 runtime nothing) load
unfolding load
load_main =
    init-Initialises 47 47 bridge_bridgejs (init 47 runtime nothing) (omega arith) (omega arith)
      init-Initialises_example.loaded
