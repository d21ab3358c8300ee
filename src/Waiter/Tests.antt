-- ===== src/Waiter/Tests.antt =====
-- Waits on a loop that accepts every handler.
use mtl.Base.{ℕ, suc, ◌+◌, ◌≡◌, refl, find, emplace, fresh, empty, find-above, Ensures, arith}
use mtl.Magenta.{signal_none}
use mtl.Tasks.HandlerLoop.Sample.{added, Loop, loop, loop-IsRegistry, new_loop, handler_of-top}
use mtl.Waiter.{HandleWatcher, World, Platform, async_wait}
use mtl.Waiter.Waits.{Inv, IsAllocator}
use mtl.Waiter.Starts.{Started, async_wait-Started}
use mtl.Waiter.Ends.{Ended, end_wait, expected, is_ready, end_wait-Ended}
use mtl.Waiter.Balance.{one_wait, Balanced, one_wait-Balanced}

abbrev platform : Platform Loop ℕ
platform = record {
  time_infinite = 1000;
  max = 1000;
  from_nanoseconds = λ n. n;
  new_watcher = λ s. suc (fresh s.watchers + s.loop.top);
}

allocator : IsAllocator loop platform (λ n l. Unit)
allocator = record {
  not_null = λ s. ground arith;
  free = λ s. find-above (suc (fresh s.watchers + s.loop.top)) s.watchers (omega arith);
  unregistered = λ s k e.
      let below = handler_of-top s.loop k (suc (fresh s.watchers + s.loop.top)) e in ground arith;
}

abbrev idle : World Loop
idle = record { loop = new_loop; watchers = empty }

idle-Inv : Inv loop platform (λ n l. Unit) 1 idle
unfolding find empty
idle-Inv = record {
  ready = tt;
  key_set = λ p w h. ground arith;
  key_range = λ p w h. ground arith;
  key_own = λ p q w h e. ground arith;
  entry_key = λ k p w e h. ground arith;
  keys_differ = λ p q w v h k e. ground arith;
}

async_wait-Started_example :
    Ensures
      (λ r. Started loop platform (λ n l. Unit) loop-IsRegistry allocator 0 30 200 201 idle r.0 r.1)
      (async_wait loop platform 30 signal_none 5 200 201 idle)
async_wait-Started_example =
    async_wait-Started loop platform (λ n l. Unit) loop-IsRegistry allocator 0 30 signal_none 5 200
      201 idle refl idle-Inv

-- Its watcher, with the key that the loop gave.
abbrev watcher : HandleWatcher
watcher = record { key = 1; handle = 30; callback = 200; context = 201 }

abbrev waiting : World Loop
waiting = record { loop = added 5 new_loop; watchers = emplace 5 watcher empty }

waiting-Inv : Inv loop platform (λ n l. Unit) 0 waiting
unfolding find emplace empty
waiting-Inv = record {
  ready = tt;
  key_set = λ p w h. ground arith;
  key_range = λ p w h. ground arith;
  key_own = λ p q w h e. ground (arith);
  entry_key = λ k p w e h. ground arith;
  keys_differ = λ p q w v h k e. ground arith;
}

end_wait-Ended_example :
    Ensures
      (λ r.
        (r.0 ≡ expected (is_ready signal_none 2) watcher)
        × Ended loop platform (λ n l. Unit) loop-IsRegistry 0 5 watcher waiting r.1)
      (end_wait loop platform (is_ready signal_none 2) 5 30 waiting)
unfolding find emplace empty
end_wait-Ended_example =
    end_wait-Ended loop platform (λ n l. Unit) loop-IsRegistry (is_ready signal_none 2) 0 5 watcher
      waiting waiting-Inv refl

one_wait-Balanced_example :
    Ensures
      (λ r.
        (r.0
          ≡ expected
              (is_ready signal_none 2)
              (record { key = 0; handle = 30; callback = 200; context = 201 }))
        × Balanced loop platform (λ n l. Unit) loop-IsRegistry allocator 0 idle r.1)
      (one_wait loop platform (is_ready signal_none 2) 30 signal_none 5 200 201 idle)
one_wait-Balanced_example =
    one_wait-Balanced loop platform (λ n l. Unit) loop-IsRegistry allocator (is_ready signal_none 2)
      0 30 signal_none 5 200 201 idle refl idle-Inv
