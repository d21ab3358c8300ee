-- ===== src/Io/DeviceWatcher/Process.antt =====
-- A process for the tests of DeviceWatcher::Create: it can open every directory, and a directory can
-- be watched if its descriptor is an odd number.
use mtl.Base.{
  inr, inl, Bool-cases, if◌then◌else◌, ℕ, ◌≡◌, refl, sym, ◌∙◌, ap, fun_ext, Bool, true, false, some,
  [], ◌==◌, arith, is_some, some-injective, Map, empty, find, emplace, erase, fresh, find-fresh,
  find-emplace, find-erase, ◌%◌,
}
use mtl.Io.DeviceWatcher.Create.Lifecycle.{create_fails, destroy-create}
use mtl.Io.DeviceWatcher.Create.{Os, Resources, IsLawful, with, without, create, destroy_watcher}

record Process : Type 0 where
  fds : Map Bool
  handles : Map Bool
  keys : Map Bool
  down : Bool

abbrev bits : Map Bool → ℕ → Bool
bits m v = is_some (find v m)

abbrev opened : Process → Resources
opened o = record { fds = bits o.fds; handles = bits o.handles; keys = bits o.keys }

abbrev ask : Bool → ℕ → Process → Bool × Process
ask true a o = (true, record o { handles = erase a o.handles })
ask false a o = (false, o)

abbrev os : Os Process
os = record {
  open_directory =
      λ path o. (some (fresh o.fds), record o { fds = emplace (fresh o.fds) true o.fds });
  channel_create = λ o.
      let b = fresh o.handles in
      let m = emplace b true o.handles in
      let a = fresh m in (some (a, b), record o { handles = emplace a true m });
  ioctl_vfs_watch_dir = λ fd a o. ask (fd % 2 == 1) a o;
  close_fd = λ fd o. record o { fds = erase fd o.fds };
  close_handle = λ h o. record o { handles = erase h o.handles };
  add_handler = λ h trigger o.
      (fresh o.keys, if o.down then o else record o { keys = emplace (fresh o.keys) true o.keys });
  is_down = λ o. o.down;
  remove_handler = λ k o. record o { keys = erase k o.keys };
}

bits-fresh : (m : Map Bool) → bits m (fresh m) ≡ false
bits-fresh m = ap is_some (find-fresh m)

bits-emplace : (m : Map Bool) → bits (emplace (fresh m) true m) ≡ with (fresh m) (bits m)
bits-emplace m = fun_ext λ v. ground (arith, find-emplace (fresh m) v true m (find-fresh m))

bits-erase : (k : ℕ) (m : Map Bool) → bits (erase k m) ≡ without k (bits m)
bits-erase k m = fun_ext λ v. ground (arith, find-erase k v m)

opens_lem :
    (o : Process) (fd : ℕ)
    → fresh o.fds ≡ fd
    → (bits o.fds fd ≡ false)
      × (opened (record o { fds = emplace (fresh o.fds) true o.fds })
          ≡ record (opened o) { fds = with fd (bits o.fds) })
opens_lem o fd h =
    rw (sym h) (bits-fresh o.fds, λ i. record (opened o) { fds = bits-emplace o.fds i })

makes_lem :
    (o : Process) (a b : ℕ)
    → fresh (emplace (fresh o.handles) true o.handles) ≡ a
    → fresh o.handles ≡ b
    → (bits o.handles b ≡ false)
      × (with b (bits o.handles) a ≡ false)
      × (opened (record o {
        handles =
            emplace
              (fresh (emplace (fresh o.handles) true o.handles))
              true
              (emplace (fresh o.handles) true o.handles);
      })
          ≡ record (opened o) { handles = with a (with b (bits o.handles)) })
makes_lem o a b h k =
    let m = emplace (fresh o.handles) true o.handles in
    rw (sym h, sym k)
      (
        bits-fresh o.handles,
        ap (λ (f : ℕ → Bool). f (fresh m)) (sym (bits-emplace o.handles)) ∙ bits-fresh m,
        λ i. record (opened o) {
          handles = (bits-emplace m ∙ ap (with (fresh m)) (bits-emplace o.handles)) i;
        },
      )

asks_fails :
    (watchable : Bool) (a : ℕ) (o : Process)
    → (ask watchable a o).0 ≡ false
    → opened (ask watchable a o).1 ≡ opened o
asks_fails true a o h = cc
asks_fails false a o h = refl

asks_succeeds :
    (watchable : Bool) (a : ℕ) (o : Process)
    → (ask watchable a o).0 ≡ true
    → opened (ask watchable a o).1 ≡ record (opened o) { handles = without a (bits o.handles) }
asks_succeeds true a o h = λ i. record (opened o) { handles = bits-erase a o.handles i }
asks_succeeds false a o h = cc

adds_lem :
    (o : Process)
    → opened (if o.down then o else record o { keys = emplace (fresh o.keys) true o.keys }) ≡ (
        if o.down then opened o else record (opened o) { keys = with (fresh o.keys) (bits o.keys) })
adds_lem o = elim (Bool-cases o.down) [
  | inl down ↦ rw down refl
  | inr up ↦ rw up (λ i. record (opened o) { keys = bits-emplace o.keys i })
]

os-IsLawful : IsLawful os opened
os-IsLawful = record {
  open_fails = λ path o h. cc;
  open_succeeds = λ path o fd h. opens_lem o fd (some-injective h);
  channel_fails = λ o h. cc;
  channel_succeeds = λ o a b h.
      makes_lem o a b (ap (λ (p : ℕ × ℕ). p.0) (some-injective h))
        (ap (λ (p : ℕ × ℕ). p.1) (some-injective h));
  ioctl_fails = λ fd a o h. asks_fails (fd % 2 == 1) a o h;
  ioctl_succeeds = λ fd a o h. asks_succeeds (fd % 2 == 1) a o h;
  opened-close_fd = λ fd o i. record (opened o) { fds = bits-erase fd o.fds i };
  opened-close_handle = λ h o i. record (opened o) { handles = bits-erase h o.handles i };
  opened-add_handler = λ h trigger o. (bits-fresh o.keys, adds_lem o);
  opened-remove_handler = λ k o i. record (opened o) { keys = bits-erase k o.keys i };
}

abbrev nothing_open : Process
nothing_open = record { fds = empty; handles = empty; keys = empty; down = false }

abbrev one_open : Process
one_open = record { fds = emplace 1 true empty; handles = empty; keys = empty; down = false }

create_fails_example : opened (create os [] one_open).1 ≡ opened one_open
unfolding create fresh emplace empty
create_fails_example = create_fails os os-IsLawful [] one_open refl

destroy-create_example :
    opened (
      destroy_watcher os
        (record { dir_fd = 1; dir_watch = some 1; handler_key = 1 })
        (create os [] nothing_open).1)
    ≡ opened nothing_open
unfolding create fresh emplace empty
destroy-create_example =
    destroy-create os os-IsLawful [] nothing_open
      (record { dir_fd = 1; dir_watch = some 1; handler_key = 1 }) refl
