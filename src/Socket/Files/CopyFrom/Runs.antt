-- ===== src/Socket/Files/CopyFrom/Runs.antt =====
-- A copy from a file to a socket as a whole: any schedule of its calls.
use mtl.Base.{◌<◌, length, ℕ, zero, suc, refl, ◌++◌, List, [], ◌∷◌, Ensures, Ensures-bind}
use mtl.Magenta.{Status}
use mtl.Socket.Stream.{Socket}
use mtl.Socket.Files.{fill_buffer, World, Files, step, step_idle, run_schedule}
use mtl.Socket.Files.CopyFrom.{CopyFromFileHandler, deliver, copy_from_file_descriptor}
use mtl.Socket.Files.CopyFrom.Invariant.{IsSink, IsSource, Inv, copying, ended}
use mtl.Socket.Files.CopyFrom.Requests.{deliver-Inv}

module _ {S F E : Type 0} (socket : Socket S) (close : S → S) (files : Files F)
    (async_wait : E → ℕ × E) (accepted : S → List ℕ) (content : F → List ℕ) (whole : List ℕ)
    (fd : ℕ) (sink : IsSink socket close accepted) (source : IsSource files fd content) where
  step-Inv :
      (i : ℕ) (status : Status) (s : World S F E CopyFromFileHandler)
      → Inv accepted content whole fd s
      → Ensures
          (Inv accepted content whole fd)
          (step (deliver socket close files async_wait) i status s)
  unfolding step
  step-Inv zero status s (copying r h c) = rw (c.asked) (
      deliver-Inv socket close files async_wait accepted content whole fd sink source r status h s
        c)
  step-Inv (suc i) status s (copying r h c) =
      rw (step_idle (deliver socket close files async_wait) (suc i) status s (rw (c.asked) refl))
        (copying r h c)
  step-Inv i status s (ended value e) =
      rw (step_idle (deliver socket close files async_wait) i status s (rw (e.none_asked) refl))
        (ended value e)

  run_schedule-Inv :
      (schedule : List (ℕ × Status)) (s : World S F E CopyFromFileHandler)
      → Inv accepted content whole fd s
      → Ensures
          (Inv accepted content whole fd)
          (run_schedule (deliver socket close files async_wait) schedule s)
  unfolding run_schedule
  run_schedule-Inv [] s inv = inv
  run_schedule-Inv ((i, status) ∷ schedule) s inv =
      Ensures-bind (Inv accepted content whole fd) (Inv accepted content whole fd)
        (step (deliver socket close files async_wait) i status s)
        (run_schedule (deliver socket close files async_wait) schedule) (step-Inv i status s inv)
        (run_schedule-Inv schedule)

-- A copy of a file to a socket, of which both may fail, with its calls in any order: no check fails
-- and no call is made on the deleted handler. Either the handler is alive, has asked for one call,
-- and has made no callback; or it is deleted, has asked for no call, and has called back once with
-- the file's descriptor. The socket has accepted a beginning of what the file had, and all of it if
-- the callback got true. The offsets stay within the buffer, and what they say before the first
-- read does not matter.
pub copies_from_file :
    {S F E : Type 0} (socket : Socket S) (close : S → S) (files : Files F) (async_wait : E → ℕ × E)
    (accepted : S → List ℕ) (content : F → List ℕ) (fd : ℕ)
    → IsSink socket close accepted
    → IsSource files fd content
    → (buffer : List ℕ) → 0 < length buffer
    → (offset end : ℕ) (destination : S) (fs : F) (waiter : E) (schedule : List (ℕ × Status))
    → Ensures (Inv accepted content (accepted destination ++ content fs) fd) (
        run_schedule (deliver socket close files async_wait) schedule (
          copy_from_file_descriptor socket close files async_wait fd buffer offset end destination
            fs waiter))
unfolding copy_from_file_descriptor
copies_from_file socket close files async_wait accepted content fd sink source buffer some_buffer
      offset end destination fs waiter schedule =
    run_schedule-Inv socket close files async_wait accepted content
      (accepted destination ++ content fs) fd sink source schedule _
      (copying fill_buffer _ record {
        alive = refl;
        asked = refl;
        no_result = refl;
        source_kept = refl;
        has_buffer = some_buffer;
        waits_for = refl;
        in_bounds = tt;
        balance = refl;
      })
