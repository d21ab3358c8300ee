-- ===== src/Io/DeviceWatcher/Messages.antt =====
-- What DeviceWatcher::OnHandleReady does with a well-formed message: its events one after the other,
-- each as two bytes and a name.
use mtl.Base.{
  ◌<◌, true, ℕ, suc, ◌+◌, ◌*◌, ◌-◌, ◌≡◌, refl, ap, ◌∙◌, Bool, false, List, [], ◌∷◌, ◌++◌, length,
  length-append, append_assoc, take-append, drop-append, if◌then◌else◌, arith,
}
use mtl.Io.DeviceWatcher.{Events, finished, destroyed, overrun, is_found, scan_events}

pub record Entry : Type 0 where
  pub event : ℕ
  pub name : List ℕ

unfoldable pub encode : List Entry → List ℕ
encode [] = []
encode (e ∷ es) = e.event ∷ length e.name ∷ (e.name ++ encode es)

module _ {W : Type 0} (events : Events) (callback : ℕ → List ℕ → W → Bool × W) (dir_fd : ℕ) where
  -- The state of the client after the calls for the events of a message, in order.
  unfoldable pub deliver : List Entry → W → W
  deliver [] w = w
  deliver (e ∷ es) w =
      deliver es
        (if is_found events callback dir_fd e.event then (callback dir_fd e.name w).1 else w)

  -- No call for the events of a message destroys the watcher.
  abbrev pub Survives : List Entry → W → Type 0
  Survives [] w = Unit
  Survives (e ∷ es) w =
      ((callback dir_fd e.name w).0 ≡ false)
      × Survives es
          (if is_found events callback dir_fd e.event then (callback dir_fd e.name w).1 else w)

  scan_entry :
      (e : Entry) (rest : List ℕ) (fuel extra : ℕ) (w : W)
      → (callback dir_fd e.name w).0 ≡ false
      → scan_events events callback dir_fd
          (suc fuel)
          (e.event ∷ length e.name ∷ (e.name ++ rest))
          (2 + length e.name + extra)
          w
        ≡ scan_events events callback dir_fd fuel rest
            (2 + extra)
            (if is_found events callback dir_fd e.event then (callback dir_fd e.name w).1 else w)
  unfolding scan_events
  scan_entry e rest fuel extra w stays =
      let less : 2 + length e.name + extra - length e.name ≡ 2 + extra = omega arith in
      ground (arith, take-append e.name rest, drop-append e.name rest, length-append e.name rest)

  -- Two calls of the loop with equal arguments.
  scan_eq :
      {f f' : ℕ} {m m' : List ℕ} {k k' : ℕ} (w : W)
      → f ≡ f'
      → m ≡ m'
      → k ≡ k'
      → scan_events events callback dir_fd f m k w ≡ scan_events events callback dir_fd f' m' k' w
  scan_eq w p q r = rw (p, q, r)

  -- If no call of the callback destroys the watcher, the events of a message that the mask asks for
  -- are handed to the callback, in order, and then the loop goes on behind the message, with a
  -- `size` that is two too large for each event of the message.
  pub scan-encode :
      (es : List Entry) (tail : List ℕ) (fuel extra : ℕ) (w : W)
      → Survives es w
      → scan_events events callback dir_fd
          (length es + fuel)
          (encode es ++ tail)
          (length (encode es) + extra)
          w
        ≡ scan_events events callback dir_fd fuel tail (2 * length es + extra) (deliver es w)
  unfolding encode deliver
  scan-encode [] tail fuel extra w s = scan_eq w (omega arith) refl (omega arith)
  scan-encode (e ∷ es) tail fuel extra w (stays, rest) =
      let w' =
        if is_found events callback dir_fd e.event then (callback dir_fd e.name w).1 else w in
      scan_eq w (omega arith)
        (ap (λ l. e.event ∷ length e.name ∷ l) (append_assoc e.name (encode es) tail))
        (omega (arith, length-append e.name (encode es)))
      ∙ scan_entry e (encode es ++ tail) (length es + fuel) (length (encode es) + extra) w stays
      ∙ scan_eq w' refl refl (omega arith)
      ∙ scan-encode es tail fuel (2 + extra) w' rest
      ∙ scan_eq (deliver es w') refl refl (omega arith)

  scan_at_end :
      (es : List Entry) (tail : List ℕ) (fuel : ℕ) (w : W)
      → Survives es w
      → scan_events events callback dir_fd
          (length es + fuel)
          (encode es ++ tail)
          (length (encode es))
          w
        ≡ scan_events events callback dir_fd fuel tail (2 * length es) (deliver es w)
  scan_at_end es tail fuel w s =
      scan_eq w refl refl (omega arith)
      ∙ scan-encode es tail fuel 0 w s
      ∙ scan_eq (deliver es w) refl refl (omega arith)

  -- If no call destroys the watcher, and the two bytes behind the message claim a name so long that
  -- it does not fit into two bytes for each event of the message, the loop ends there, with the
  -- calls for the events of the message and no other.
  pub scan_stops :
      (es : List Entry) (event namelen : ℕ) (tail : List ℕ) (fuel : ℕ) (w : W)
      → Survives es w
      → 2 * length es < namelen + 2
      → scan_events events callback dir_fd
          (length es + suc fuel)
          (encode es ++ event ∷ namelen ∷ tail)
          (length (encode es))
          w
        ≡ finished (deliver es w)
  scan_stops es event namelen tail fuel w s long =
      scan_at_end es (event ∷ namelen ∷ tail) (suc fuel) w s ∙ (unfold scan_events in ground arith)

  -- If no call destroys the watcher, a message that has an event and fills the buffer is read past
  -- the end of the buffer, after the calls for its events.
  pub scan_overruns :
      (e : Entry) (es : List Entry) (fuel : ℕ) (w : W)
      → Survives (e ∷ es) w
      → scan_events events callback dir_fd
          (length (e ∷ es) + suc fuel)
          (encode (e ∷ es) ++ [])
          (length (encode (e ∷ es)))
          w
        ≡ overrun (deliver (e ∷ es) w)
  scan_overruns e es fuel w s =
      scan_at_end (e ∷ es) [] (suc fuel) w s ∙ (unfold scan_events in ground arith)

  -- If no call destroys the watcher, bytes behind a message that has an event, which look like the
  -- event of a device with an empty name, are handed to the callback as one more event.
  pub scan_invents :
      (e : Entry) (es : List Entry) (event : ℕ) (tail : List ℕ) (fuel : ℕ) (w : W)
      → Survives (e ∷ es) w
      → is_found events callback dir_fd event ≡ true
      → (callback dir_fd [] (deliver (e ∷ es) w)).0 ≡ false
      → scan_events events callback dir_fd
          (length (e ∷ es) + suc fuel)
          (encode (e ∷ es) ++ event ∷ 0 ∷ tail)
          (length (encode (e ∷ es)))
          w
        ≡ scan_events events callback dir_fd fuel tail
            (2 * length (e ∷ es))
            (callback dir_fd [] (deliver (e ∷ es) w)).1
  scan_invents e es event tail fuel w s found stays =
      scan_at_end (e ∷ es) (event ∷ 0 ∷ tail) (suc fuel) w s
      ∙ (let whole : 2 * suc (length es) - 0 ≡ 2 * suc (length es) = omega arith in
          unfold scan_events in ground arith)

  -- A call that destroys the watcher is the last one: the scan ends with it, with the calls for the
  -- events before, and the events behind it in the message are not handed over.
  pub scan_destroyed :
      (es : List Entry) (e : Entry) (after : List Entry) (tail : List ℕ) (fuel : ℕ) (w : W)
      → Survives es w
      → is_found events callback dir_fd e.event ≡ true
      → (callback dir_fd e.name (deliver es w)).0 ≡ true
      → scan_events events callback dir_fd
          (length es + suc fuel)
          (encode es ++ (encode (e ∷ after) ++ tail))
          (length (encode es) + length (encode (e ∷ after)))
          w
        ≡ destroyed (callback dir_fd e.name (deliver es w)).1
  scan_destroyed es e after tail fuel w s found gone =
      scan-encode es (encode (e ∷ after) ++ tail) (suc fuel) (length (encode (e ∷ after))) w s
      ∙ (unfold scan_events encode in
          rw (append_assoc e.name (encode after) tail) (
            ground (
              arith,
              take-append e.name (encode after ++ tail),
              length-append e.name (encode after ++ tail),
              length-append e.name (encode after),
            )))
