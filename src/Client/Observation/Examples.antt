-- ===== src/Client/Observation/Examples.antt =====
-- The theorems on client/core/observeResource.go at a concrete device.
use device.Common.{◌≡◌, refl, true, false, [], ◌∷◌, arith}
use device.Common.Eq.{string_eq}
use device.Common.Dict.{lookup}
use device.Client.Observation.{
  Observation, Device, stop, close_observations, notified, connection_lost, closes, run,
}
use device.Client.Observation.Endings.{Inv, close_observations-rest, run-Inv}

abbrev observation : Observation
observation = record {
  handler = record { is_closed = false; calls = [] };
  registered = true;
  established = true;
  cancels = 0;
}

abbrev two : Device
two = record { observations = ("a", observation) ∷ ("b", observation) ∷ []; stopped = [] }

close_observations-rest_example :
    ((close_observations true two).observations ≡ ("b", observation) ∷ [])
    × ((close_observations true two).stopped ≡ ("a", stop true observation) ∷ [])
unfolding lookup
close_observations-rest_example =
    close_observations-rest true two "a" observation (("b", observation) ∷ []) refl
      (refl, (refl, tt))

run-Inv_example : Inv (run two (notified "a" ∷ connection_lost false "a" ∷ closes true ∷ []))
run-Inv_example =
    run-Inv two (notified "a" ∷ connection_lost false "a" ∷ closes true ∷ []) (record {
      in_map = (
        record { open_has_none = λ h. refl; one_ending = omega arith },
        (record { open_has_none = λ h. refl; one_ending = omega arith }, tt),
      );
      out_of_map = tt;
    })
