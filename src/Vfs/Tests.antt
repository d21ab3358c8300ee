-- ===== src/Vfs/Tests.antt =====
-- A dispatcher on a loop that accepts every handler. A close is recorded by its iostate, and a served
-- message by its channel.
use mtl.Base.{
  ℕ, suc, ◌+◌, ◌≡◌, refl, true, some, List, [], ◌∷◌, ◌==◌, find, emplace, fresh, empty, find-above,
  Ensures, if◌then◌else◌, arith,
}
use mtl.Magenta.{ok, failed, bad_state, signal_none}
use mtl.Tasks.HandlerLoop.Sample.{Loop, loop, loop-IsRegistry, new_loop, added, handler_of-top}
use mtl.Vfs.{
  VfsHandler, Connection, World, Platform, add_vfs_handler, on_handle_ready, destroy_dispatcher,
}
use mtl.Vfs.Live.{IsLawful, Inv, AreOpen}
use mtl.Vfs.Adds.{Added, add_vfs_handler-Added}
use mtl.Vfs.Calls.{After, on_handle_ready-After, hang_up, peer_closes, hang_up-Ended}
use mtl.Vfs.Ends.{Ended}
use mtl.Vfs.Dispatcher.{Finished, destroy_dispatcher-Finished}

abbrev connection : Connection
connection = record { channel = 61; callback = 71; iostate = 81 }

-- Channel 60 has an error, after a callback that adds a connection.
abbrev platform : Platform Loop ℕ (List ℕ)
platform = record {
  max = 1000;
  new_handler = λ s. suc (fresh s.heap + s.loop.top);
  mxrio_handler = λ handle callback iostate e.
      if handle == 0
      then record { status = ok; next = iostate ∷ e; added = [] }
      else if handle == 60
      then record { status = failed bad_state; next = handle ∷ e; added = connection ∷ [] }
      else record { status = ok; next = handle ∷ e; added = [] };
  close_channel = λ channel e. e;
}

added_open :
    (handle callback iostate : ℕ) (e : List ℕ)
    → AreOpen (platform.mxrio_handler handle callback iostate e).added
added_open handle callback iostate e = ground arith

abbrev Ready : ℕ → Loop → Type 0
Ready n l = Unit

platform-IsLawful : IsLawful loop platform Ready
platform-IsLawful = record {
  not_null = λ s. ground arith;
  free = λ s. find-above (suc (fresh s.heap + s.loop.top)) s.heap (omega arith);
  unregistered = λ s k e.
      let below = handler_of-top s.loop k (suc (fresh s.heap + s.loop.top)) e in ground arith;
  adds_open = added_open;
  close_adds_none = λ callback iostate e. refl;
}

abbrev idle : World Loop (List ℕ)
idle = record { loop = new_loop; heap = empty; handlers = []; io = [] }

idle-Inv : (n : ℕ) → Inv loop platform Ready n idle
unfolding find empty
idle-Inv n = record {
  owners = record {
    ready = tt;
    key_set = λ p w h. ground arith;
    key_range = λ p w h. ground arith;
    key_own = λ p q w h e. ground arith;
    entry_key = λ k p w e h. ground arith;
    keys_differ = λ p q w v h k e. ground arith;
  };
  listed = λ p. refl;
  distinct = tt;
}

add_vfs_handler-Added_example :
    Ensures
      (λ r.
        (r.0 ≡ ok)
        × Added loop platform Ready loop-IsRegistry platform-IsLawful 0 connection idle r.1)
      (add_vfs_handler loop platform connection idle)
add_vfs_handler-Added_example =
    add_vfs_handler-Added loop platform Ready loop-IsRegistry platform-IsLawful 0 connection idle
      refl (idle-Inv 1)

abbrev handler : VfsHandler
handler = record { key = 1; channel = 60; callback = 70; iostate = 80 }

abbrev serving : World Loop (List ℕ)
serving = record {
  loop = added 5 new_loop;
  heap = emplace 5 handler empty;
  handlers = 5 ∷ [];
  io = [];
}

serving-Inv : (n : ℕ) → Inv loop platform Ready n serving
unfolding find emplace empty
serving-Inv n = record {
  owners = record {
    ready = tt;
    key_set = λ p w h. ground arith;
    key_range = λ p w h. ground arith;
    key_own = λ p q w h e. ground arith;
    entry_key = λ k p w e h. ground arith;
    keys_differ = λ p q w v h k e. ground arith;
  };
  listed = λ p. ground arith;
  distinct = (refl, tt);
}

serving_handler : find 5 serving.heap ≡ some handler
unfolding find emplace empty
serving_handler = refl

on_handle_ready-After_example :
    Ensures
      (After loop platform Ready loop-IsRegistry platform-IsLawful
        (failed bad_state)
        2
        5
        handler
        (connection ∷ [])
        (60 ∷ [])
        serving)
      (on_handle_ready loop platform 5 60 (record signal_none { readable = true }) 1 serving)
on_handle_ready-After_example =
    on_handle_ready-After loop platform Ready loop-IsRegistry platform-IsLawful 2 5 60 1
      (record signal_none { readable = true }) handler serving refl serving_handler (serving-Inv 3)

hang_up-Ended_example :
    Ensures
      (λ t.
        Ended loop platform Ready loop-IsRegistry platform-IsLawful 0 5 handler true t.handlers
          serving t)
      (hang_up loop platform (peer_closes signal_none) 5 60 1 serving)
hang_up-Ended_example =
    hang_up-Ended loop platform Ready loop-IsRegistry platform-IsLawful (peer_closes signal_none) 0
      5 60 1 handler serving serving_handler (serving-Inv 0)

destroy_dispatcher-Finished_example :
    Ensures
      (λ t.
        Finished loop platform Ready loop-IsRegistry platform-IsLawful (5 ∷ []) serving t
        × (t.handlers ≡ []))
      (destroy_dispatcher loop platform serving)
destroy_dispatcher-Finished_example =
    destroy_dispatcher-Finished loop platform Ready loop-IsRegistry platform-IsLawful 0 serving
      (serving-Inv 0)
