-- ===== src/Tasks/HandlerLoop/Owners.antt =====
-- Objects on the heap that register themselves as handlers, and keep the key that they get.
use mtl.Base.{ℕ, suc, ◌<◌, ◌≡◌, ◌≢◌, ◌⊎◌, false, none, some, ◌==◌, if◌then◌else◌, Map, find, arith}
use mtl.Tasks.HandlerLoop.{HandlerLoop, IsRegistry, Registered, Unregistered}

module _ {L TimeDelta V : Type 0} (loop : HandlerLoop L TimeDelta) (Ready : ℕ → L → Type 0)
    (key_of : V → ℕ) where
  -- `n` more objects can be registered.
  pub record Owners (n : ℕ) (objects : Map V) (l : L) : Type 0 where
    pub ready : Ready n l
    pub key_set : (p : ℕ) (v : V) → find p objects ≡ some v → (key_of v == 0) ≡ false
    pub key_range : (p : ℕ) (v : V) → find p objects ≡ some v → key_of v < loop.next_key l
    -- The entry of an object's key is its own, or is not there, as on a loop that shut down.
    pub key_own :
        (p q : ℕ) (v : V) → find p objects ≡ some v → loop.handler_of l (key_of v) ≡ some q → q ≡ p
    pub entry_key :
        (k p : ℕ) (v : V) → loop.handler_of l k ≡ some p → find p objects ≡ some v → key_of v ≡ k
    pub keys_differ :
        (p q : ℕ) (v w : V)
        → find p objects ≡ some v
        → find q objects ≡ some w
        → key_of v ≡ key_of w
        → p ≡ q

  module _ (registry : IsRegistry loop Ready) (n p : ℕ) (v : V) (objects objects' : Map V)
      (l l' : L) where
    pub add-Owners :
        Owners (suc n) objects l
        → find p objects ≡ none
        → ((k : ℕ) → loop.handler_of l k ≢ some p)
        → Ready n l'
        → Registered loop p l (key_of v) l'
        → ((q : ℕ) → find q objects' ≡ (if p == q then some v else find q objects))
        → Owners n objects' l'
    add-Owners o free unregistered ready r at = record {
      ready = ready;
      key_set = λ q w h. ground (arith, o.key_set q w, at q, r.not_null);
      key_range = λ q w h. ground (arith, o.key_range q w, at q, r.new, r.next);
      key_own = λ q t w h e.
          ground (arith, o.key_own q t w, o.key_range q w, at q, entry_at (key_of w) t e, r.new);
      entry_key =
          λ k q w e h. ground (arith, o.entry_key k q w, at q, entry_at k q e, unregistered k);
      keys_differ = λ q t w x h k e.
          ground
            (arith, o.keys_differ q t w x, o.key_range q w, o.key_range t x, at q, at t, r.new);
    }
      where
        -- The entries after the registration: those of before, and perhaps the new one.
        entry_at :
            (k q : ℕ)
            → loop.handler_of l' k ≡ some q
            → ((k ≡ key_of v) × (q ≡ p)) ⊎ ((k < key_of v) × (loop.handler_of l k ≡ some q))
        entry_at k q e =
            ground (arith, r.entries k, registry.key_range (suc n) k q l o.ready, r.new)

    pub remove-Owners :
        Owners n objects l
        → Ready n l'
        → Unregistered loop (key_of v) l l'
        → ((q : ℕ) → find q objects' ≡ (if p == q then none else find q objects))
        → Owners n objects' l'
    remove-Owners o ready u at = record {
      ready = ready;
      key_set = λ q w h. ground (arith, o.key_set q w, at q);
      key_range = λ q w h. ground (arith, o.key_range q w, at q, u.same_next);
      key_own = λ q r w h e. ground (arith, o.key_own q r w, at q, u.entries (key_of w));
      entry_key = λ k q w e h. ground (arith, o.entry_key k q w, at q, u.entries k);
      keys_differ = λ q r w x h k e. ground (arith, o.keys_differ q r w x, at q, at r);
    }
