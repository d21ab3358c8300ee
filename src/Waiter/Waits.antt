-- ===== src/Waiter/Waits.antt =====
-- Each wait that was started is in the loop until it is called or cancelled.
use mtl.Base.{ℕ, ◌≡◌, ◌≢◌, false, none, some, ◌==◌, find}
use mtl.Tasks.HandlerLoop.{HandlerLoop}
use mtl.Tasks.HandlerLoop.Owners.{Owners}
use mtl.Waiter.{World, Platform}

module _ {L TimeDelta : Type 0} (loop : HandlerLoop L TimeDelta) (platform : Platform L TimeDelta)
    (Ready : ℕ → L → Type 0) where
  -- Watchers do not overlap with each other, nor with a handler that is registered.
  pub record IsAllocator : Type 0 where
    pub not_null : (s : World L) → (platform.new_watcher s == 0) ≡ false
    pub free : (s : World L) → find (platform.new_watcher s) s.watchers ≡ none
    pub unregistered :
        (s : World L) (k : ℕ) → loop.handler_of s.loop k ≢ some (platform.new_watcher s)

  -- `n` more waits can be started.
  abbrev pub Inv : ℕ → World L → Type 0
  Inv n s = Owners loop Ready (λ w. w.key) n s.watchers s.loop
