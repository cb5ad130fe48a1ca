-- ===== src/Requests/Tests.antt =====
-- Requests that are answered, refused and cut off.
use arbitro.Common.{List, [], erase, err, lookup, ok, put, refl, ◌∷◌, ◌≡◌}
use arbitro.Requests.{
  Call, cancel, cancel_call, complete, complete_ok, complete_ok_call, disconnected, drain_call,
  drain_disconnected, new_table, perform, register, register_call, run, send_all,
}
use arbitro.Requests.Answers.{IsAccounted, run-IsAccounted}

abbrev calls : List Call
calls =
    register_call 1
    ∷ register_call 2
    ∷ register_call 3
    ∷ complete_ok_call 2 (112 ∷ [])
    ∷ complete_ok_call 2 (113 ∷ [])
    ∷ cancel_call 3
    ∷ drain_call
    ∷ []

-- The second reply under the number 2 finds no entry.
seven_calls :
    run new_table calls
    ≡ record { map = []; channels = 3; sent = (0, err disconnected) ∷ (1, ok (112 ∷ [])) ∷ [] }
unfolding run perform register complete complete_ok cancel send_all drain_disconnected put lookup
    erase
seven_calls = refl

run-IsAccounted_example : IsAccounted calls
run-IsAccounted_example = run-IsAccounted calls
