-- ===== src/Vfs/Adds.antt =====
-- AddVFSHandler.
use mtl.Base.{
  ℕ, suc, ◌≡◌, refl, false, none, some, ◌==◌, if◌then◌else◌, find, emplace, erase, find-emplace,
  find-erase, Ensures, Ensures-bind, arith,
}
use mtl.Magenta.{ok}
use mtl.Tasks.HandlerLoop.{HandlerLoop, IsRegistry, Registered}
use mtl.Tasks.HandlerLoop.Owners.{add-Owners}
use mtl.Vfs.{
  VfsHandler, Connection, World, Platform, vfs_handler, insert, start_handler, add_vfs_handler,
  trigger,
}
use mtl.Vfs.Set.{has-insert, insert-IsDistinct}
use mtl.Vfs.Live.{IsLawful, Inv}

module _ {L TimeDelta E : Type 0} (loop : HandlerLoop L TimeDelta)
    (platform : Platform L TimeDelta E) (Ready : ℕ → L → Type 0) (registry : IsRegistry loop Ready)
    (lawful : IsLawful loop platform Ready) where
  -- One more handler is served, which was at a free address, and all others are as before.
  pub record Added (n : ℕ) (c : Connection) (s t : World L E) : Type 0 where
    pub inv : Inv loop platform Ready n t
    pub address : ℕ
    pub free : find address s.heap ≡ none
    pub key : ℕ
    pub heap_left :
        (q : ℕ)
        → find q t.heap ≡ (
            if address == q
            then some (record {
              key = key;
              channel = c.channel;
              callback = c.callback;
              iostate = c.iostate;
            })
            else find q s.heap)
    pub registered : Registered loop address s.loop key t.loop
    pub same_io : t.io ≡ s.io

  module _ (n : ℕ) (c : Connection) (s : World L E) (inv : Inv loop platform Ready (suc n) s)
      (key : ℕ) (l : L) where
    abbrev p : ℕ
    p = platform.new_handler s

    abbrev made : VfsHandler
    made = record { key = key; channel = c.channel; callback = c.callback; iostate = c.iostate }

    abbrev after : World L E
    after = record s {
      loop = l;
      heap = emplace p made (erase p (emplace p (vfs_handler loop platform) s.heap));
      handlers = insert p s.handlers;
    }

    handler_at : (q : ℕ) → find q after.heap ≡ (if p == q then some made else find q s.heap)
    handler_at q =
        let blank = vfs_handler loop platform in
        ground (
          arith,
          find-emplace p p blank s.heap (lawful.free s),
          find-emplace p q blank s.heap (lawful.free s),
          find-erase p p (emplace p blank s.heap),
          find-erase p q (emplace p blank s.heap),
          find-emplace p q made (erase p (emplace p blank s.heap))
              (ground (arith, find-erase p p (emplace p blank s.heap))),
        )

    added : Ready n l → Registered loop p s.loop key l → Added n c s after
    added ready r = record {
      inv = record {
        owners =
            add-Owners loop Ready (λ h. h.key) registry n p made s.heap after.heap s.loop l
              inv.owners (lawful.free s) (lawful.unregistered s) ready r handler_at;
        listed = λ q. ground (arith, has-insert p q s.handlers, inv.listed q, handler_at q);
        distinct =
            insert-IsDistinct p s.handlers (ground (arith, inv.listed p, lawful.free s))
              inv.distinct;
      };
      address = p;
      free = lawful.free s;
      key = key;
      heap_left = handler_at;
      registered = r;
      same_io = refl;
    }

  -- AddVFSHandler of an open channel returns MX_OK and fails no check: the new handler is at a free
  -- address and in the set once, and it has what it was given. It is registered, if the loop does not
  -- shut down, and nothing is registered if it does; no other handler or entry changes.
  pub add_vfs_handler-Added :
      (n : ℕ) (c : Connection) (s : World L E)
      → (c.channel == 0) ≡ false
      → Inv loop platform Ready (suc n) s
      → Ensures (λ r. (r.0 ≡ ok) × Added n c s r.1) (add_vfs_handler loop platform c s)
  unfolding add_vfs_handler start_handler
  add_vfs_handler-Added n c s valid inv =
      let at = platform.new_handler s in
      let there : find at (emplace at (vfs_handler loop platform) s.heap)
          ≡ some (vfs_handler loop platform) =
        ground (arith, find-emplace at at (vfs_handler loop platform) s.heap (lawful.free s)) in
      let began : World L E = record s { heap = emplace at (vfs_handler loop platform) s.heap } in
      Ensures-bind (λ t. Added n c s (record t { handlers = insert at t.handlers })) _
        (start_handler loop platform at c began) _
        (rw there (
          Ensures-bind _ (λ t. Added n c s (record t { handlers = insert at t.handlers }))
            (loop.add_handler at c.channel trigger platform.max s.loop) _
            (registry.add_handler_lem n at c.channel trigger platform.max s.loop (lawful.not_null s)
              valid inv.owners.ready)
            (λ r (ready, reg). added n c s inv r.0 r.1 ready reg)))
        (λ t e. (refl, e))
