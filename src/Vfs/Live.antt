-- ===== src/Vfs/Live.antt =====
-- The handlers that are served: each is in the set once, and has its entry in the loop.
use mtl.Base.{IsDistinct, has, ℕ, ◌≡◌, ◌≢◌, false, none, some, List, [], ◌∷◌, ◌==◌, find, is_some}
use mtl.Tasks.HandlerLoop.{HandlerLoop}
use mtl.Tasks.HandlerLoop.Owners.{Owners}
use mtl.Magenta.{handle_invalid}
use mtl.Vfs.{Connection, World, Platform}

-- Their channels are not MX_HANDLE_INVALID.
abbrev pub AreOpen : List Connection → Type 0
AreOpen [] = Unit
AreOpen (c ∷ cs) = ((c.channel == 0) ≡ false) × AreOpen cs

module _ {L TimeDelta E : Type 0} (loop : HandlerLoop L TimeDelta)
    (platform : Platform L TimeDelta E) (Ready : ℕ → L → Type 0) where
  -- operator new gives free memory, callbacks add open channels, and none when they close.
  pub record IsLawful : Type 0 where
    pub not_null : (s : World L E) → (platform.new_handler s == 0) ≡ false
    pub free : (s : World L E) → find (platform.new_handler s) s.heap ≡ none
    pub unregistered :
        (s : World L E) (k : ℕ) → loop.handler_of s.loop k ≢ some (platform.new_handler s)
    pub adds_open :
        (handle callback iostate : ℕ) (e : E)
        → AreOpen (platform.mxrio_handler handle callback iostate e).added
    pub close_adds_none :
        (callback iostate : ℕ) (e : E)
        → (platform.mxrio_handler handle_invalid callback iostate e).added ≡ []

  -- The handlers of the list are those on the heap, and `n` more can be added.
  pub record Live (n : ℕ) (ps : List ℕ) (s : World L E) : Type 0 where
    pub owners : Owners loop Ready (λ h. h.key) n s.heap s.loop
    pub listed : (p : ℕ) → has p ps ≡ is_some (find p s.heap)
    pub distinct : IsDistinct ps

  abbrev pub Inv : ℕ → World L E → Type 0
  Inv n s = Live n s.handlers s
