-- ===== src/Socket/Files/CopyTo/Runs.antt =====
-- A copy from a socket to a file as a whole: any schedule of its calls.
use mtl.Base.{ℕ, zero, suc, ◌≡◌, refl, false, List, [], ◌∷◌, ◌++◌, Ensures, Ensures-bind, All}
use mtl.Magenta.{Status, is_peer_closed}
use mtl.Socket.Stream.{Socket}
use mtl.Socket.Files.{handle_ready, World, Files, step, step_idle, run_schedule}
use mtl.Socket.Files.CopyTo.{CopyToFileHandler, deliver, copy_to_file_descriptor}
use mtl.Socket.Files.CopyTo.Invariant.{IsStream, IsTarget, Inv, copying, ended}
use mtl.Socket.Files.CopyTo.Calls.{deliver-Inv}

module _ {S F E : Type 0} (socket : Socket S) (close : S → S) (files : Files F)
    (async_wait : E → ℕ × E) (content : S → List ℕ) (written : F → List ℕ) (whole : List ℕ) (fd : ℕ)
    (stream : IsStream socket content) (target : IsTarget files fd written) where
  abbrev Good : World S F E CopyToFileHandler → Type 0
  Good = Inv content written whole fd

  step-Inv :
      (i : ℕ) (status : Status) (s : World S F E CopyToFileHandler)
      → is_peer_closed status ≡ false
      → Good s
      → Ensures Good (step (deliver socket close files async_wait) i status s)
  unfolding step
  step-Inv zero status s not_closed (copying r h c) = rw (c.asked) (
      deliver-Inv socket close files async_wait content written whole fd stream target r status h s
        not_closed c)
  step-Inv (suc i) status s not_closed (copying r h c) =
      rw (step_idle (deliver socket close files async_wait) (suc i) status s (rw (c.asked) refl))
        (copying r h c)
  step-Inv i status s not_closed (ended value e) =
      rw (step_idle (deliver socket close files async_wait) i status s (rw (e.none_asked) refl))
        (ended value e)

  run_schedule-Inv :
      (schedule : List (ℕ × Status)) (s : World S F E CopyToFileHandler)
      → All (λ (turn : ℕ × Status). is_peer_closed turn.1 ≡ false) schedule
      → Good s
      → Ensures Good (run_schedule (deliver socket close files async_wait) schedule s)
  unfolding run_schedule
  run_schedule-Inv [] s ok_turns inv = inv
  run_schedule-Inv ((i, status) ∷ schedule) s (not_closed, ok_turns) inv =
      Ensures-bind Good Good (step (deliver socket close files async_wait) i status s)
        (run_schedule (deliver socket close files async_wait) schedule)
        (step-Inv i status s not_closed inv) (λ t. run_schedule-Inv schedule t ok_turns)

-- A copy of a socket to a file, of which both may fail, with its calls in any order, where no wait
-- ends with MX_ERR_PEER_CLOSED for its status: no check fails and no call is made on the deleted
-- handler. Either the handler is alive, has asked for one call, and has made no callback; or it is
-- deleted, has asked for no call, and has called back once with the file's descriptor. The file has
-- what it had and a beginning of the socket's bytes, and all of them if the callback got true.
pub copies_to_file :
    {S F E : Type 0} (socket : Socket S) (close : S → S) (files : Files F) (async_wait : E → ℕ × E)
    (content : S → List ℕ) (written : F → List ℕ) (fd : ℕ)
    → IsStream socket content
    → IsTarget files fd written
    → (source : S) (fs : F) (waiter : E) (schedule : List (ℕ × Status))
    → All (λ (turn : ℕ × Status). is_peer_closed turn.1 ≡ false) schedule
    → Ensures (Inv content written (written fs ++ content source) fd) (
        run_schedule
          (deliver socket close files async_wait)
          schedule
          (copy_to_file_descriptor socket close files async_wait source fd fs waiter))
unfolding copy_to_file_descriptor
copies_to_file socket close files async_wait content written fd stream target source fs waiter
      schedule ok_turns =
    run_schedule-Inv socket close files async_wait content written (written fs ++ content source) fd
      stream target schedule _ ok_turns
      (copying handle_ready _ record {
        alive = refl;
        asked = refl;
        no_result = refl;
        destination_kept = refl;
        waits_for = refl;
        balance = refl;
      })
