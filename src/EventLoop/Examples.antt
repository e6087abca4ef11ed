-- ===== src/EventLoop/Examples.antt =====
-- The theorems on pkg/eventloop/eventloop.go at a concrete loop.
use device.Common.{◌≡◌, refl, true, false, some, List, [], ◌∷◌}
use device.EventLoop.{
  Handler, Loop, new_loop, loaded, add, store_handlers, wake_up, remove_by_channels, recv_case,
  get_cases, start, round,
}
use device.EventLoop.Search.{remove_by_channels_lem}
use device.EventLoop.Dispatch.{adds, step, run, serves, round-serves}

abbrev two : List Handler
two = record { ch = 30; h = 1 } ∷ record { ch = 20; h = 2 } ∷ []

abbrev loop : Loop
loop = record { handlers = some (0, two); wake = false; stored = 1 }

remove_by_channels_lem_example :
    loaded (remove_by_channels (30 ∷ 10 ∷ []) loop).handlers ≡ record { ch = 20; h = 2 } ∷ []
remove_by_channels_lem_example = remove_by_channels_lem (30 ∷ 10 ∷ []) loop

round-serves_example :
    serves (recv_case 20) false (round 3 false (run (start new_loop) (adds two ∷ []))).0 ≡ true
unfolding run step add wake_up store_handlers get_cases
round-serves_example = round-serves (adds two ∷ []) 3 false (recv_case 20) refl
