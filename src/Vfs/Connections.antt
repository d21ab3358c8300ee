-- ===== src/Vfs/Connections.antt =====
-- What serving a connection means, for the connections that a callback adds.
use mtl.Base.{
  ◌∙◌, arith, has, ℕ, ◌≡◌, Bool, false, none, some, List, [], ◌∷◌, if◌then◌else◌, find, Map,
}
use mtl.Tasks.HandlerLoop.{HandlerLoop}
use mtl.Vfs.{VfsHandler, Connection, World}

module _ {L TimeDelta E : Type 0} (loop : HandlerLoop L TimeDelta) where
  -- `c` is served at `p`, which was free on `heap`: its handler is there, with what it was given, and
  -- registered, unless the loop shuts down.
  pub record IsServed (heap : Map VfsHandler) (down : Bool) (c : Connection) (p : ℕ) (t : World L E)
      : Type 0 where
    pub free : find p heap ≡ none
    pub key : ℕ
    pub there :
        find p t.heap
        ≡ some
            (record { key = key; channel = c.channel; callback = c.callback; iostate = c.iostate })
    pub entry : loop.handler_of t.loop key ≡ (if down then none else some p)

  -- Each connection of the first list is served, at its address of the second.
  abbrev pub AreServed : Map VfsHandler → Bool → List Connection → List ℕ → World L E → Type 0
  AreServed heap down [] [] t = Unit
  AreServed heap down [] (p ∷ ps) t = ⊥
  AreServed heap down (c ∷ cs) [] t = ⊥
  AreServed heap down (c ∷ cs) (p ∷ ps) t = IsServed heap down c p t × AreServed heap down cs ps t

  -- An address that was not free is none of those.
  pub has-AreServed :
      (heap : Map VfsHandler) (down : Bool) (cs : List Connection) (ps : List ℕ) (t : World L E)
      (q : ℕ) (h : VfsHandler)
      → AreServed heap down cs ps t
      → find q heap ≡ some h
      → has q ps ≡ false
  has-AreServed heap down [] [] t q h served taken = ground arith
  has-AreServed heap down [] (p ∷ ps) t q h served taken = elim served [ ]
  has-AreServed heap down (c ∷ cs) [] t q h served taken = elim served [ ]
  has-AreServed heap down (c ∷ cs) (p ∷ ps) t q h (one, served) taken =
      ground (arith, one.free, has-AreServed heap down cs ps t q h served taken)

  -- Connections stay served while their handlers and entries stay.
  pub AreServed-kept :
      (m m' : Map VfsHandler) (down : Bool) (cs : List Connection) (ps : List ℕ) (t u : World L E)
      → ((p : ℕ) → find p m' ≡ none → find p m ≡ none)
      → ((p : ℕ) (h : VfsHandler)
          → find p m' ≡ none
          → find p t.heap ≡ some h
          → (find p u.heap ≡ some h)
            × (loop.handler_of u.loop h.key ≡ loop.handler_of t.loop h.key))
      → AreServed m' down cs ps t
      → AreServed m down cs ps u
  AreServed-kept m m' down [] [] t u earlier kept served = tt
  AreServed-kept m m' down [] (p ∷ ps) t u earlier kept served = elim served [ ]
  AreServed-kept m m' down (c ∷ cs) [] t u earlier kept served = elim served [ ]
  AreServed-kept m m' down (c ∷ cs) (p ∷ ps) t u earlier kept (one, served) =
      let (there, same) = kept p _ one.free one.there in
      (
        record {
          free = earlier p one.free;
          key = one.key;
          there = there;
          entry = same ∙ one.entry;
        },
        AreServed-kept m m' down cs ps t u earlier kept served,
      )
