-- ===== src/Vfs/Dispatcher.antt =====
-- The end of a dispatcher.
use mtl.Base.{
  has, sym, ap, ◌∙◌, ℕ, ◌≡◌, refl, false, true, none, some, Option, List, [], ◌∷◌, ◌==◌,
  if◌then◌else◌, find, Ensures, Ensures-bind, Ensures-mono, arith, Option-cases, inl, inr, Map,
}
use mtl.Tasks.HandlerLoop.{HandlerLoop, IsRegistry}
use mtl.Vfs.{VfsHandler, World, Platform, delete_handler, delete_all, destroy_dispatcher}
use mtl.Vfs.Live.{IsLawful, Live, Inv}
use mtl.Vfs.Ends.{closed, Ended, delete_handler-Ended}

module _ {L TimeDelta E : Type 0} (loop : HandlerLoop L TimeDelta)
    (platform : Platform L TimeDelta E) (Ready : ℕ → L → Type 0) (registry : IsRegistry loop Ready)
    (lawful : IsLawful loop platform Ready) where
  -- The effect of closing the handler at an address, if there is one.
  abbrev close_found : Option VfsHandler → E → E
  close_found none e = e
  close_found (some h) e = closed loop platform Ready registry lawful h true e

  -- The handlers of the list, each closed once, in order.
  abbrev pub close_each : List ℕ → Map VfsHandler → E → E
  close_each [] heap e = e
  close_each (p ∷ ps) heap e = close_each ps heap (close_found (find p heap) e)

  pub record Finished (ps : List ℕ) (s t : World L E) : Type 0 where
    pub gone : (q : ℕ) → find q t.heap ≡ none
    pub entries_left :
        (k q : ℕ)
        → loop.handler_of t.loop k ≡ some q
        → (find q s.heap ≡ none) × (loop.handler_of s.loop k ≡ some q)
    pub io_left : t.io ≡ close_each ps s.heap s.io

  close_each-other :
      (p : ℕ) (ps : List ℕ) (m m' : Map VfsHandler) (e : E)
      → has p ps ≡ false
      → ((q : ℕ) → find q m' ≡ (if p == q then none else find q m))
      → close_each ps m' e ≡ close_each ps m e
  close_each-other p [] m m' e out at = refl
  close_each-other p (q ∷ ps) m m' e out at =
      let same : find q m' ≡ find q m = ground (arith, at q, out) in
      rw same (close_each-other p ps m m' (close_found (find q m) e) (ground (arith, out)) at)

  delete_all-Finished :
      (n : ℕ) (ps : List ℕ) (s : World L E)
      → Live loop platform Ready n ps s
      → Ensures (Finished ps s) (delete_all loop platform ps s)
  unfolding delete_all
  delete_all-Finished n [] s live = record {
    gone = λ q. ground (arith, live.listed q);
    entries_left = λ k q e. (ground (arith, live.listed q), e);
    io_left = refl;
  }
  delete_all-Finished n (p ∷ ps) s live = elim (Option-cases (find p s.heap)) [
    | inl none_there ↦ absurd (ground (arith, live.listed p))
    | inr (h, there) ↦
        Ensures-bind (Ended loop platform Ready registry lawful n p h true ps s)
          (Finished (p ∷ ps) s) (delete_handler loop platform p s) (delete_all loop platform ps)
          (delete_handler-Ended loop platform Ready registry lawful n p h s there ps live)
          (λ t e.
            Ensures-mono (Finished ps t) (Finished (p ∷ ps) s) (delete_all loop platform ps t)
              (delete_all-Finished n ps t e.live)
              (λ u f. record {
                gone = f.gone;
                entries_left = λ k q registered. ground (
                  arith,
                  f.entries_left k q registered,
                  e.heap_left q,
                  e.entries_left k,
                  live.owners.entry_key k q h,
                  there,
                );
                io_left =
                    f.io_left
                    ∙ ap (close_each ps t.heap) e.io_left
                    ∙ close_each-other p ps s.heap t.heap _ live.distinct.0 e.heap_left
                    ∙ ap (λ o. close_each ps s.heap (close_found o s.io)) (sym there);
              }))
  ]

  -- Destroying a dispatcher fails no check, deletes each handler that it serves, closes it once, in the
  -- order of the set, and leaves none of them registered in the loop.
  pub destroy_dispatcher-Finished :
      (n : ℕ) (s : World L E)
      → Inv loop platform Ready n s
      → Ensures
          (λ t. Finished s.handlers s t × (t.handlers ≡ []))
          (destroy_dispatcher loop platform s)
  unfolding destroy_dispatcher
  destroy_dispatcher-Finished n s inv =
      Ensures-bind (Finished s.handlers s) _ (delete_all loop platform s.handlers s) _
        (delete_all-Finished n s.handlers s inv)
        (λ t f.
          (record { gone = f.gone; entries_left = f.entries_left; io_left = f.io_left }, refl))
