-- ===== src/Net/Servers/Closed.antt =====
-- Serve and Close of bridge/net/network.go in any order.
use device.Common.{◌+◌, ◌≡◌, refl, true, false, List, [], ◌∷◌, arith, if◌then◌else◌}
use device.Net.Servers.{Net, fresh_net, serve, close, Call, serves, closes, run_calls}

-- The channel `done` is closed once the net is stopped, and with it either the servers are stopped or
-- their sockets closed.
record IsOnce (n : Net) : Type 0 where
  done : n.done_closed ≡ (if n.stopped then 1 else 0)
  ended : n.servers_stopped + n.sockets_closed ≡ n.done_closed

serve-IsOnce : (n : Net) → IsOnce n → IsOnce (serve n).1
unfolding serve
serve-IsOnce n i = ground (arith, i.done, i.ended)

close-IsOnce : (n : Net) → IsOnce n → IsOnce (close n)
unfolding close
close-IsOnce n i = ground (arith, i.done, i.ended)

run_calls-IsOnce : (cs : List Call) (n : Net) → IsOnce n → IsOnce (run_calls n cs)
unfolding run_calls
run_calls-IsOnce [] n i = i
run_calls-IsOnce (serves ∷ cs) n i = run_calls-IsOnce cs (serve n).1 (serve-IsOnce n i)
run_calls-IsOnce (closes ∷ cs) n i = run_calls-IsOnce cs (close n) (close-IsOnce n i)

stopped-close : (n : Net) → (close n).stopped ≡ true
unfolding close
stopped-close n = ground arith

-- However often Serve and Close were called before, in any order: after Close the channel `done` was
-- closed once, the servers were stopped or their sockets closed, and not both, and Serve refuses.
pub close-once :
    (cs : List Call)
    → let n = close (run_calls fresh_net cs) in
      (n.done_closed ≡ 1) × (n.servers_stopped + n.sockets_closed ≡ 1) × ((serve n).0 ≡ false)
unfolding serve
close-once cs =
    let n = close (run_calls fresh_net cs) in
    let i =
      close-IsOnce (run_calls fresh_net cs)
        (run_calls-IsOnce cs fresh_net (record { done = refl; ended = refl })) in
    let s = stopped-close (run_calls fresh_net cs) in ground (arith, i.done, i.ended, s)
