-- ===== src/Socket/SocketDrainer/Calls.antt =====
-- Each operation of a drainer keeps the invariant.
use mtl.Base.{
  Ensures-bind, subst, length-append, returns, arith, ◌≤◌, zero, suc, ◌∷◌, ℕ, suc, ◌+◌, ◌<◌, ◌≡◌,
  inl, inr, refl, sym, ◌∙◌, ap, false, none, some, List, [], ◌∷◌, ◌++◌, append_assoc, append-nil,
  length, Bool-cases, Ensures,
}
use mtl.Socket.Stream.{gets, waits, ends, Socket, IsReader}
use mtl.Socket.SocketDrainer.{
  complete_waits, wait_complete, complete_wait, drain_size, read_data, Client, Waiter, World,
  destroy_drainer, wait_for_data, data_read, data_complete,
}
use mtl.Socket.SocketDrainer.Invariant.{
  IsRecording, WaitsAreShort, to_come, Inv, draining, complete, destroyed,
}

module _ {S E C : Type 0} (socket : Socket S) (close : S → S) (waiter : Waiter E)
    (client : Client C) (reader : IsReader socket) (recording : IsRecording client)
    (whole : List ℕ) where
  -- A drainer that is about to read, or to wait for `n` rounds at most.
  pub record Reading (s : World S E C) : Type 0 where
    pub alive : s.drainer ≡ some (record { wait_id = none; has_sentinel = false })
    pub no_wait : s.waits ≡ []
    pub balance : recording.received s.client ++ reader.content s.source ≡ whole
    pub not_yet : recording.completions s.client ≡ 0

  wait_for_data-Inv :
      (n : ℕ) (s : World S E C)
      → Reading s
      → to_come socket close waiter client reader recording whole
          (socket.wait_readable s.source).next
        < n
      → Ensures
          (Inv socket close waiter client reader recording whole n)
          (wait_for_data socket close waiter client s)
  unfolding wait_for_data
  wait_for_data-Inv n s r bound = rw (r.alive) (
      draining (waiter.async_wait s.waiter).0 record {
        alive = refl;
        one_wait = ap (◌∷◌ (waiter.async_wait s.waiter).0) (r.no_wait);
        balance = r.balance;
        not_yet = r.not_yet;
        bound = bound;
      })

  data_read-Inv :
      (n : ℕ) (bytes : List ℕ) (s : World S E C)
      → s.drainer ≡ some (record { wait_id = none; has_sentinel = false })
      → s.waits ≡ []
      → recording.received s.client ++ (bytes ++ reader.content s.source) ≡ whole
      → recording.completions s.client ≡ 0
      → to_come socket close waiter client reader recording whole
          (socket.wait_readable s.source).next
        < n
      → Ensures
          (Inv socket close waiter client reader recording whole n)
          (data_read socket close waiter client bytes s)
  unfolding data_read destroy_drainer
  data_read-Inv n bytes s alive no_wait balance not_yet bound =
      let c = (client.on_data_available bytes s.client).1 in
      let joined : recording.received c ++ reader.content s.source ≡ whole =
        ap (λ l. l ++ reader.content s.source) (recording.received-on_data_available bytes s.client)
        ∙ append_assoc (recording.received s.client) bytes (reader.content s.source)
        ∙ balance in
      let still = recording.completions-on_data_available bytes s.client ∙ not_yet in
      rw alive (elim (Bool-cases (client.on_data_available bytes s.client).0) [
        | inl gone ↦ rw gone (
            destroyed record {
              deleted = refl;
              no_wait = no_wait;
              rest = reader.content s.source;
              beginning = joined;
              not_told = still;
              bytes = bytes;
              before = s.client;
              left = gone;
            })
        | inr stays ↦ rw stays (
            wait_for_data-Inv n _
              record { alive = refl; no_wait = no_wait; balance = joined; not_yet = still } bound)
      ])

  data_complete-Inv :
      (n : ℕ) (s : World S E C)
      → s.drainer ≡ some (record { wait_id = none; has_sentinel = false })
      → s.waits ≡ []
      → recording.received s.client ≡ whole
      → recording.completions s.client ≡ 0
      → Ensures
          (Inv socket close waiter client reader recording whole n)
          (data_complete socket close waiter client s)
  unfolding data_complete destroy_drainer
  data_complete-Inv n s alive no_wait all not_yet =
      let everything = recording.received-on_data_complete s.client ∙ all in
      let told = recording.completions-on_data_complete s.client ∙ ap suc not_yet in
      elim (Bool-cases (client.on_data_complete s.client).0) [
        | inl gone ↦
            rw (gone, alive)
              (complete record { no_wait = no_wait; everything = everything; told = told })
        | inr stays ↦
            rw stays (complete record { no_wait = no_wait; everything = everything; told = told })
      ]

  pub read_data-Inv :
      WaitsAreShort socket reader
      → (n : ℕ) (s : World S E C) → Reading s
      → to_come socket close waiter client reader recording whole s.source ≤ n
      → Ensures
          (Inv socket close waiter client reader recording whole n)
          (read_data socket close waiter client s)
  unfolding read_data
  read_data-Inv short n s r bound =
      let t = (socket.read drain_size s.source).next in
      elim (reader.reads drain_size s.source (omega arith)) [
        | gets st pos small eq less ↦
            let bytes = (socket.read drain_size s.source).bytes in
            rw st (
              data_read-Inv n bytes (record s { source = t }) r.alive r.no_wait
                (ap (◌++◌ (recording.received s.client)) (sym eq) ∙ r.balance) r.not_yet
                (omega (
                  arith,
                  short t,
                  ap length (reader.content-wait_readable t),
                  ap length eq,
                  length-append bytes (reader.content t),
                )))
        | waits st same kept ↦ rw st (
            wait_for_data-Inv n (record s { source = t })
              record {
                alive = r.alive;
                no_wait = r.no_wait;
                balance = ap (◌++◌ (recording.received s.client)) same ∙ r.balance;
                not_yet = r.not_yet;
              }
              (omega (
                arith,
                ap length (reader.content-wait_readable t),
                ap length same,
                reader.pending-wait_readable drain_size s.source st,
              )))
        | ends st none_left ↦ rw st (
            data_complete-Inv n (record s { source = t }) r.alive r.no_wait
              (sym (append-nil (recording.received s.client))
                ∙ ap (◌++◌ (recording.received s.client)) (sym none_left)
                ∙ r.balance)
              r.not_yet)
      ]

  no_wait_left :
      (s : World S E C)
      → s.waits ≡ []
      → complete_wait socket close waiter client s.waits s ≡ returns s
  unfolding complete_wait
  no_wait_left s h = ap (λ l. complete_wait socket close waiter client l s) h

  complete_wait-Inv :
      WaitsAreShort socket reader
      → (n : ℕ) (s : World S E C) → Inv socket close waiter client reader recording whole (suc n) s
      → Ensures
          (Inv socket close waiter client reader recording whole n)
          (complete_wait socket close waiter client s.waits s)
  unfolding complete_wait wait_complete
  complete_wait-Inv short n s (draining id d) =
      rw (d.one_wait, d.alive)
        (read_data-Inv short n
          (record {
            source = (socket.wait_readable s.source).next;
            waiter = s.waiter;
            waits = [];
            drainer = some (record { wait_id = none; has_sentinel = false });
            client = s.client;
          })
          record {
            alive = refl;
            no_wait = refl;
            balance =
                ap (◌++◌ (recording.received s.client)) (reader.content-wait_readable s.source)
                ∙ d.balance;
            not_yet = d.not_yet;
          }
          (omega (arith, d.bound)))
  complete_wait-Inv short n s (complete c) = rw (no_wait_left s c.no_wait) (complete c)
  complete_wait-Inv short n s (destroyed d) = rw (no_wait_left s d.no_wait) (destroyed d)

  pub complete_waits-Inv :
      WaitsAreShort socket reader
      → (k n : ℕ) (s : World S E C)
      → Inv socket close waiter client reader recording whole (k + n) s
      → Ensures
          (Inv socket close waiter client reader recording whole n)
          (complete_waits socket close waiter client k s)
  unfolding complete_waits
  complete_waits-Inv short zero n s inv =
      subst (λ m. Inv socket close waiter client reader recording whole m s) (omega arith) inv
  complete_waits-Inv short (suc k) n s inv =
      Ensures-bind (Inv socket close waiter client reader recording whole (k + n))
        (Inv socket close waiter client reader recording whole n)
        (complete_wait socket close waiter client s.waits s)
        (complete_waits socket close waiter client k)
        (complete_wait-Inv short (k + n) s (
          subst (λ m. Inv socket close waiter client reader recording whole m s) (omega arith) inv))
        (complete_waits-Inv short k n)
