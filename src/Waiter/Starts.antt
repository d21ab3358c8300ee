-- ===== src/Waiter/Starts.antt =====
-- The start of a wait.
use mtl.Base.{
  ℕ, suc, ◌≡◌, refl, false, none, some, ◌==◌, if◌then◌else◌, find, emplace, erase, find-emplace,
  find-erase, Ensures, Ensures-bind, arith,
}
use mtl.Magenta.{Signals}
use mtl.Tasks.HandlerLoop.{HandlerLoop, IsRegistry, Registered}
use mtl.Tasks.HandlerLoop.Owners.{add-Owners}
use mtl.Waiter.{HandleWatcher, World, Platform, start_watcher, async_wait}
use mtl.Waiter.Waits.{Inv, IsAllocator}

module _ {L TimeDelta : Type 0} (loop : HandlerLoop L TimeDelta) (platform : Platform L TimeDelta)
    (Ready : ℕ → L → Type 0) where
  module _ (registry : IsRegistry loop Ready) where
    module _ (allocator : IsAllocator loop platform Ready) where
      -- The new wait is at a free address, and all others are as before.
      pub record Started (n handle callback context : ℕ) (s : World L) (id : ℕ) (t : World L)
          : Type 0 where
        pub inv : Inv loop platform Ready n t
        pub free : find id s.watchers ≡ none
        pub key : ℕ
        pub watchers_left :
            (q : ℕ)
            → find q t.watchers ≡ (
                if id == q
                then some
                    (record { key = key; handle = handle; callback = callback; context = context })
                else find q s.watchers)
        pub registered : Registered loop id s.loop key t.loop

      -- The watchers once Start has set the key.
      started_watchers :
          (p q : ℕ) (w w' : HandleWatcher) (s : World L)
          → find p s.watchers ≡ none
          → find q (emplace p w' (erase p (emplace p w s.watchers)))
            ≡ (if p == q then some w' else find q s.watchers)
      started_watchers p q w w' s free =
          let began = find-emplace p q w s.watchers free in
          let gone = find-erase p p (emplace p w s.watchers) in
          ground (
            arith,
            began,
            gone,
            find-erase p q (emplace p w s.watchers),
            find-emplace p q w' (erase p (emplace p w s.watchers)) (ground arith),
          )

      module _ (n p handle callback context : ℕ) (s : World L)
          (inv : Inv loop platform Ready (suc n) s) (fresh : p ≡ platform.new_watcher s) (key : ℕ)
          (l : L) (ready : Ready n l) (r : Registered loop p s.loop key l) where
        abbrev made : HandleWatcher
        made = record { key = key; handle = handle; callback = callback; context = context }

        abbrev after : World L
        after = record {
          loop = l;
          watchers = emplace p made (erase p (emplace p (record made { key = 0 }) s.watchers));
        }

        none_there : find p s.watchers ≡ none
        none_there = rw fresh (allocator.free s)

        watcher_at :
            (q : ℕ) → find q after.watchers ≡ (if p == q then some made else find q s.watchers)
        watcher_at q = started_watchers p q (record made { key = 0 }) made s none_there

        started : Started n handle callback context s p after
        started = record {
          inv =
              add-Owners loop Ready (λ w. w.key) registry n p made s.watchers after.watchers s.loop
                l inv none_there (λ k. rw fresh (allocator.unregistered s k)) ready r watcher_at;
          free = none_there;
          key = key;
          watchers_left = watcher_at;
          registered = r;
        }

      -- A wait that is started on a handle that is not null is at a free address, with its callback and
      -- its context. It is registered there, if the loop does not shut down, and nothing is registered
      -- if it does; no other watcher or entry changes.
      pub async_wait-Started :
          (n handle : ℕ) (signals : Signals) (timeout callback context : ℕ) (s : World L)
          → (handle == 0) ≡ false
          → Inv loop platform Ready (suc n) s
          → Ensures
              (λ r. Started n handle callback context s r.0 r.1)
              (async_wait loop platform handle signals timeout callback context s)
      unfolding async_wait start_watcher
      async_wait-Started n handle signals timeout callback context s h inv =
          let p = platform.new_watcher s in
          let w : HandleWatcher = record {
            key = 0;
            handle = handle;
            callback = callback;
            context = context;
          } in
          let there : find p (emplace p w s.watchers) ≡ some w =
            ground (arith, find-emplace p p w s.watchers (allocator.free s)) in
          Ensures-bind (Started n handle callback context s p)
            (λ r. Started n handle callback context s r.0 r.1)
            (start_watcher loop platform p signals timeout
              (record s { watchers = emplace p w s.watchers }))
            _
            (rw there (
              Ensures-bind _ (Started n handle callback context s p)
                (loop.add_handler p handle signals _ s.loop) _
                (registry.add_handler_lem n p handle signals _ s.loop (allocator.not_null s) h
                  inv.ready)
                (λ r (ready, reg).
                  started n p handle callback context s inv refl r.0 r.1 ready reg)))
            (λ t e. e)
