-- ===== src/Socket/SocketDrainer/Tests.antt =====
-- Drainers of a pipe: one whose client keeps every byte, and one whose client destroys it at once.
use mtl.Base.{ℕ, suc, ◌+◌, refl, Bool, true, false, List, [], ◌∷◌, ◌++◌, Ensures, ◌>>=◌, arith}
use mtl.Socket.Pipe.{Pipe, pipe, pipe-IsReader}
use mtl.Socket.SocketDrainer.{Client, Waiter, start, complete_waits}
use mtl.Socket.SocketDrainer.Invariant.{IsRecording, WaitsAreShort, Inv, Complete}
use mtl.Socket.SocketDrainer.Drains.{start-Inv, start-Complete}

record Log : Type 0 where
  bytes : List ℕ
  ended : ℕ

abbrev keeps : Bool → Client Log
keeps leaving = record {
  on_data_available = λ bytes c. (leaving, record c { bytes = c.bytes ++ bytes });
  on_data_complete = λ c. (leaving, record c { ended = suc c.ended });
}

abbrev waiter : Waiter ℕ
waiter = record { async_wait = λ e. (e, e + 1); cancel_wait = λ id e. e }

abbrev keeps-IsRecording : (leaving : Bool) → IsRecording (keeps leaving)
keeps-IsRecording leaving = record {
  received = λ c. c.bytes;
  completions = λ c. c.ended;
  received-on_data_available = λ bytes c. refl;
  completions-on_data_available = λ bytes c. refl;
  received-on_data_complete = λ c. refl;
  completions-on_data_complete = λ c. refl;
}

pipe-WaitsAreShort : WaitsAreShort pipe pipe-IsReader
pipe-WaitsAreShort s = omega arith

abbrev filled : Pipe
filled = record { sent = []; arriving = 104 ∷ 105 ∷ []; busy = 1 }

abbrev nothing : Log
nothing = record { bytes = []; ended = 0 }

start-Inv_example :
    Ensures
      (Inv pipe
        (λ s. s)
        waiter
        (keeps true)
        pipe-IsReader
        (keeps-IsRecording true)
        (104 ∷ 105 ∷ [])
        2)
      (start pipe (λ s. s) waiter (keeps true) filled 1 nothing
        >>= complete_waits pipe (λ s. s) waiter (keeps true) 1)
start-Inv_example =
    start-Inv pipe (λ s. s) waiter (keeps true) pipe-IsReader (keeps-IsRecording true)
      pipe-WaitsAreShort 1 2 filled 1 nothing refl refl (omega arith)

start-Complete_example :
    Ensures
      (Complete pipe
        (λ s. s)
        waiter
        (keeps false)
        pipe-IsReader
        (keeps-IsRecording false)
        (104 ∷ 105 ∷ []))
      (start pipe (λ s. s) waiter (keeps false) filled 1 nothing
        >>= complete_waits pipe (λ s. s) waiter (keeps false) 3)
start-Complete_example =
    start-Complete pipe (λ s. s) waiter (keeps false) pipe-IsReader (keeps-IsRecording false)
      pipe-WaitsAreShort filled 1 nothing refl refl (λ bytes d. refl)
