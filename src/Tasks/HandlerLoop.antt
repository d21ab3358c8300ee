-- ===== src/Tasks/HandlerLoop.antt =====
-- What the classes that register a MessageLoopHandler use of the MessageLoop, and what they rely on.
pub mod Owners
pub mod Sample
use mtl.Base.{
  ◌&&◌, not, ℕ, suc, ◌<◌, ◌≡◌, ◌⊎◌, Bool, false, Option, none, some, ◌==◌, if◌then◌else◌, Outcome,
  Ensures,
}
use mtl.Magenta.{Signals}

-- `handler_of` is the handler that is registered under a key. A handler is its address. A loop that
-- `is_down` shuts down, and accepts no wait.
pub record HandlerLoop (L TimeDelta : Type 0) : Type 0 where
  pub add_handler : ℕ → ℕ → Signals → TimeDelta → L → Outcome (ℕ × L)
  pub remove_handler : ℕ → L → Outcome L
  pub handler_of : L → ℕ → Option ℕ
  pub next_key : L → ℕ
  pub is_down : L → Bool

module _ {L TimeDelta : Type 0} (loop : HandlerLoop L TimeDelta) where
  -- Registering `handler` in `l` gave `key`, which no earlier call gave, and `l'`. The handler has the
  -- entry of the key then, unless the loop shuts down, which registers nothing.
  pub record Registered (handler : ℕ) (l : L) (key : ℕ) (l' : L) : Type 0 where
    pub not_null : (key == 0) ≡ false
    pub new : key ≡ loop.next_key l
    pub next : loop.next_key l' ≡ suc key
    pub same_down : loop.is_down l' ≡ loop.is_down l
    pub entries :
        (j : ℕ)
        → loop.handler_of l' j
          ≡ (if not (loop.is_down l) && (key == j) then some handler else loop.handler_of l j)

  pub record Unregistered (key : ℕ) (l l' : L) : Type 0 where
    pub same_next : loop.next_key l' ≡ loop.next_key l
    pub same_down : loop.is_down l' ≡ loop.is_down l
    pub entries : (j : ℕ) → loop.handler_of l' j ≡ (if key == j then none else loop.handler_of l j)

  -- In a loop that is `Ready n`, `n` handlers can be registered, and handlers can be removed.
  pub record IsRegistry (Ready : ℕ → L → Type 0) : Type 0 where
    pub add_handler_lem :
        (n handler handle : ℕ) (trigger : Signals) (timeout : TimeDelta) (l : L)
        → (handler == 0) ≡ false
        → (handle == 0) ≡ false
        → Ready (suc n) l
        → Ensures
            (λ r. Ready n r.1 × Registered handler l r.0 r.1)
            (loop.add_handler handler handle trigger timeout l)
    pub remove_handler_lem :
        (n key : ℕ) (l : L)
        → Ready n l
        → Ensures (λ l'. Ready n l' × Unregistered key l l') (loop.remove_handler key l)
    pub key_range :
        (n key handler : ℕ) (l : L)
        → Ready n l
        → loop.handler_of l key ≡ some handler
        → key < loop.next_key l
