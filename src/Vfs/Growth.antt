-- ===== src/Vfs/Growth.antt =====
-- Several calls of AddVFSHandler, as a callback makes them.
use mtl.Tasks.HandlerLoop.{HandlerLoop, IsRegistry}
use mtl.Vfs.{VfsHandler, Connection, World, Platform, add_vfs_handler, add_all}
use mtl.Vfs.Connections.{AreServed, has-AreServed, AreServed-kept}
use mtl.Vfs.Live.{AreOpen, IsLawful, Inv}
use mtl.Vfs.Adds.{Added, add_vfs_handler-Added}
use mtl.Base.{
  has, IsDistinct, ◌∙◌, Ensures-mono, ℕ, suc, ◌+◌, ◌≡◌, ◌⊎◌, refl, false, true, none, some, List,
  [], ◌∷◌, if◌then◌else◌, find, Ensures, Ensures-bind, length, arith, Option-cases, inl, inr,
}

module _ {L TimeDelta E : Type 0} (loop : HandlerLoop L TimeDelta)
    (platform : Platform L TimeDelta E) (Ready : ℕ → L → Type 0) (registry : IsRegistry loop Ready)
    (lawful : IsLawful loop platform Ready) where
  -- The entry of the handler that is added, and those of before.
  new_entry :
      (n : ℕ) (c : Connection) (s t : World L E)
      → Inv loop platform Ready (suc n) s
      → (a : Added loop platform Ready registry lawful n c s t)
      → loop.handler_of t.loop a.key ≡ (if loop.is_down s.loop then none else some a.address)
  new_entry n c s t inv a = elim (Option-cases (loop.handler_of s.loop a.key)) [
    | inl none_there ↦ ground (arith, a.registered.entries a.key)
    | inr (q, there) ↦ absurd (
        omega (
          arith,
          registry.key_range (suc n) a.key q s.loop inv.owners.ready there,
          a.registered.new,
        ))
  ]

  old_entry :
      (n : ℕ) (c : Connection) (s t : World L E)
      → Inv loop platform Ready (suc n) s
      → (a : Added loop platform Ready registry lawful n c s t) → (k q : ℕ)
      → loop.handler_of s.loop k ≡ some q
      → loop.handler_of t.loop k ≡ some q
  old_entry n c s t inv a k q there = ground (
    arith,
    a.registered.entries k,
    registry.key_range (suc n) k q s.loop inv.owners.ready there,
    a.registered.new,
  )

  -- The connections are served, each at an address of its own, and all else is as it was before.
  pub record Grown (n : ℕ) (cs : List Connection) (s t : World L E) : Type 0 where
    pub inv : Inv loop platform Ready n t
    pub addresses : List ℕ
    pub distinct : IsDistinct addresses
    pub served : AreServed loop s.heap (loop.is_down s.loop) cs addresses t
    pub heap_left : (q : ℕ) → has q addresses ≡ false → find q t.heap ≡ find q s.heap
    pub entries_kept :
        (k q : ℕ) → loop.handler_of s.loop k ≡ some q → loop.handler_of t.loop k ≡ some q
    pub entries_new :
        (k q : ℕ)
        → loop.handler_of t.loop k ≡ some q
        → (loop.handler_of s.loop k ≡ some q)
          ⊎ ((loop.is_down s.loop ≡ false) × (has q addresses ≡ true))
    pub same_io : t.io ≡ s.io

  Grown-kept :
      (n : ℕ) (cs : List Connection) (s t : World L E)
      → Grown n cs s t
      → (q : ℕ) (h : VfsHandler) → find q s.heap ≡ some h
      → find q t.heap ≡ some h
  Grown-kept n cs s t g q h there =
      g.heap_left q (has-AreServed loop s.heap _ cs g.addresses t q h g.served there) ∙ there

  -- The entry of a key that no handler had stays, while the loop shuts down.
  kept_entry :
      (n : ℕ) (cs : List Connection) (k : ℕ) (r t : World L E)
      → Grown n cs r t
      → (p : ℕ) → loop.handler_of r.loop k ≡ (if loop.is_down r.loop then none else some p)
      → loop.handler_of t.loop k ≡ (if loop.is_down r.loop then none else some p)
  kept_entry n cs k r t g p e = elim (Option-cases (loop.handler_of t.loop k)) [
    | inl none_there ↦ ground (arith, g.entries_kept k p, e)
    | inr (q, there) ↦ ground (arith, g.entries_kept k p, g.entries_new k q there, e)
  ]

  Grown-cons :
      (n : ℕ) (c : Connection) (cs : List Connection) (s r t : World L E)
      → Inv loop platform Ready (suc (length cs + n)) s
      → Added loop platform Ready registry lawful (length cs + n) c s r
      → Grown n cs r t
      → Grown n (c ∷ cs) s t
  Grown-cons n c cs s r t inv a g =
      let down = a.registered.same_down in
      let entry =
        kept_entry n cs a.key r t g a.address (rw down (new_entry (length cs + n) c s r inv a)) in
      let there : find a.address r.heap
          ≡ some (record {
            key = a.key;
            channel = c.channel;
            callback = c.callback;
            iostate = c.iostate;
          }) =
        ground (arith, a.heap_left a.address) in
      record {
        inv = g.inv;
        addresses = a.address ∷ g.addresses;
        distinct =
            (has-AreServed loop r.heap _ cs g.addresses t a.address _ g.served there, g.distinct);
        served = (
          record {
            free = a.free;
            key = a.key;
            there = Grown-kept n cs r t g a.address _ there;
            entry = rw down at entry;
          },
          AreServed-kept loop s.heap r.heap _ cs g.addresses t t
              (λ p e. ground (arith, a.heap_left p)) (λ p h e f. (f, refl)) (rw down at g.served),
        );
        heap_left = λ q out. ground (arith, g.heap_left q, a.heap_left q, out);
        entries_kept = λ k q e. g.entries_kept k q (old_entry (length cs + n) c s r inv a k q e);
        entries_new = λ k q e.
            ground (arith, g.entries_new k q, a.registered.entries k, a.registered.same_down);
        same_io = g.same_io ∙ a.same_io;
      }

  pub add_all-Grown :
      (n : ℕ) (cs : List Connection) (s : World L E)
      → AreOpen cs
      → Inv loop platform Ready (length cs + n) s
      → Ensures (Grown n cs s) (add_all loop platform cs s)
  unfolding add_all
  add_all-Grown n [] s valid inv =
      let none_left : 0 + n ≡ n = omega arith in
      record {
        inv = rw none_left at inv;
        addresses = [];
        distinct = tt;
        served = tt;
        heap_left = λ q out. refl;
        entries_kept = λ k q e. e;
        entries_new = λ k q e. inl e;
        same_io = refl;
      }
  add_all-Grown n (c ∷ cs) s (valid, rest) inv =
      let one_more : suc (length cs) + n ≡ suc (length cs + n) = omega arith in
      Ensures-bind _ (Grown n (c ∷ cs) s) (add_vfs_handler loop platform c s) _
        (add_vfs_handler-Added loop platform Ready registry lawful (length cs + n) c s valid
          (rw one_more at inv))
        (λ r (done, a).
          Ensures-mono (Grown n cs r.1) (Grown n (c ∷ cs) s) (add_all loop platform cs r.1)
            (add_all-Grown n cs r.1 rest a.inv)
            (λ t g. Grown-cons n c cs s r.1 t (rw one_more at inv) a g))
