-- ===== src/Tasks/HandlerLoop/Sample.antt =====
-- A loop that accepts every handler until it shuts down, for the tests of the classes that register one.
use mtl.Base.{
  ◌&&◌, Bool, not, false, ℕ, suc, ◌+◌, ◌<◌, ◌≡◌, refl, Option, none, some, ◌==◌, if◌then◌else◌, ltb,
  returns, arith,
}
use mtl.Tasks.HandlerLoop.{HandlerLoop, IsRegistry}

-- Keys are below `next`, and handlers below `top`; what `entries` says of others does not count.
pub record Loop : Type 0 where
  pub next : ℕ
  pub top : ℕ
  pub down : Bool
  pub entries : ℕ → Option ℕ

abbrev pub bounded : ℕ → Option ℕ → Option ℕ
bounded top none = none
bounded top (some h) = if ltb h top then some h else none

abbrev pub handler_of : Loop → ℕ → Option ℕ
handler_of l k = if ltb k (suc l.next) then bounded l.top (l.entries k) else none

abbrev pub added : ℕ → Loop → Loop
added h l = record {
  next = suc l.next;
  top = suc (h + l.top);
  down = l.down;
  entries = λ k. if not l.down && (suc l.next == k) then some h else handler_of l k;
}

abbrev pub removed : ℕ → Loop → Loop
removed key l = record l { entries = λ k. if key == k then none else l.entries k }

abbrev pub loop : HandlerLoop Loop ℕ
loop = record {
  add_handler = λ h handle trigger timeout l. returns (suc l.next, added h l);
  remove_handler = λ key l. returns (removed key l);
  handler_of = handler_of;
  next_key = λ l. suc l.next;
  is_down = λ l. l.down;
}

abbrev pub new_loop : Loop
new_loop = record { next = 0; top = 1; down = false; entries = λ k. none }

bounded-higher :
    (top h : ℕ) (o : Option ℕ) → bounded (suc (h + top)) (bounded top o) ≡ bounded top o
bounded-higher top h none = refl
bounded-higher top h (some k) = ground arith

pub handler_of-added :
    (h : ℕ) (l : Loop) (j : ℕ)
    → handler_of (added h l) j
      ≡ (if not l.down && (suc l.next == j) then some h else handler_of l j)
handler_of-added h l j = ground (arith, bounded-higher l.top h (l.entries j))

bounded-top : (top h : ℕ) (o : Option ℕ) → bounded top o ≡ some h → h < top
bounded-top top h none e = ground arith
bounded-top top h (some x) e = ground arith

pub handler_of-top : (l : Loop) (k h : ℕ) → handler_of l k ≡ some h → h < l.top
handler_of-top l k h e = ground (arith, bounded-top l.top h (l.entries k))

pub loop-IsRegistry : IsRegistry loop (λ n l. Unit)
loop-IsRegistry = record {
  add_handler_lem = λ n h handle trigger timeout l h0 handle0 r. (
    tt,
    record {
      not_null = ground arith;
      new = refl;
      next = refl;
      same_down = refl;
      entries = handler_of-added h l;
    },
  );
  remove_handler_lem =
      λ n key l r. (tt, record { same_next = refl; same_down = refl; entries = λ j. ground arith });
  key_range = λ n key h l r e. ground arith;
}
