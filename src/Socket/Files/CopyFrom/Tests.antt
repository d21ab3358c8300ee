-- ===== src/Socket/Files/CopyFrom/Tests.antt =====
-- A copy to a socket that makes its writer wait, from a file that gives a byte at a time.
use mtl.Base.{
  ℕ, zero, suc, ◌+◌, ◌≤◌, ◌<◌, ◌≡◌, refl, true, false, some, List, [], ◌∷◌, ◌++◌, length, take,
  Ensures, arith, ap, ◌∙◌, subst, some-injective,
}
use mtl.Magenta.{ok, failed, should_wait, is_ok}
use mtl.Socket.Stream.{Socket, WriteResult}
use mtl.Socket.Files.{Files, run_schedule, turns}
use mtl.Socket.Files.CopyFrom.{deliver, copy_from_file_descriptor}
use mtl.Socket.Files.CopyFrom.Invariant.{IsSink, IsSource}
use mtl.Socket.Files.CopyFrom.Progress.{Advances, puts, waits, Complete, copies_from_file-Complete}

record Sink : Type 0 where
  bytes : List ℕ
  waits_left : ℕ

abbrev write_sink : ℕ → List ℕ → Sink → WriteResult Sink
write_sink (suc n) xs s = record {
  status = failed should_wait;
  written = 0;
  next = record s { waits_left = n };
}
write_sink zero xs s = record {
  status = ok;
  written = length (take 1 xs);
  next = record s { bytes = s.bytes ++ take 1 xs };
}

abbrev sink : Socket Sink
sink = record {
  read = λ size s. record { status = failed should_wait; bytes = []; next = s };
  write = λ bytes s. write_sink s.waits_left bytes s;
  wait_readable = λ s. record { status = ok; next = s };
  wait_writable = λ s. record { status = ok; next = s };
}

written_sink :
    (n : ℕ) (xs : List ℕ) (s : Sink)
    → is_ok (write_sink n xs s).status ≡ true
    → ((write_sink n xs s).written ≤ length xs)
      × ((write_sink n xs s).next.bytes ≡ s.bytes ++ take (write_sink n xs s).written xs)
written_sink (suc n) xs s e = cc
written_sink zero [] s e = (omega arith, refl)
written_sink zero (x ∷ xs) s e = (omega arith, refl)

refused_sink :
    (n : ℕ) (xs : List ℕ) (s : Sink)
    → is_ok (write_sink n xs s).status ≡ false
    → (write_sink n xs s).next.bytes ≡ s.bytes
refused_sink (suc n) xs s e = refl
refused_sink zero xs s e = cc

sink-IsSink : IsSink sink (λ s. s) (λ s. s.bytes)
sink-IsSink = record {
  accepted-close = λ s. refl;
  written_bound = λ bytes s e. (written_sink s.waits_left bytes s e).0;
  accepted-write = λ bytes s e. (written_sink s.waits_left bytes s e).1;
  accepted-write_failed = λ bytes s e. refused_sink s.waits_left bytes s e;
}

sink-Advances :
    (n : ℕ) (xs sent : List ℕ)
    → 0 < length xs
    → Advances
        (λ (s : Sink). s.waits_left)
        xs
        (record { bytes = sent; waits_left = n })
        (write_sink n xs (record { bytes = sent; waits_left = n }))
sink-Advances (suc n) xs sent h = waits refl (omega arith)
sink-Advances zero [] sent h = absurd (omega arith)
sink-Advances zero (x ∷ xs) sent h = puts refl (omega arith) (omega arith) (omega arith)

abbrev next_byte : ℕ → List ℕ → List ℕ × List ℕ
next_byte zero f = ([], f)
next_byte (suc n) [] = ([], [])
next_byte (suc n) (x ∷ xs) = (x ∷ [], xs)

abbrev files : Files (List ℕ)
files = record {
  read_file_descriptor = λ fd size f. (some (next_byte size f).0, (next_byte size f).1);
  write_file_descriptor = λ fd bytes f. (true, f);
}

next_split :
    (n : ℕ) (f : List ℕ)
    → (f ≡ (next_byte n f).0 ++ (next_byte n f).1) × (length (next_byte n f).0 ≤ n)
next_split zero f = (refl, omega arith)
next_split (suc n) [] = (refl, omega arith)
next_split (suc n) (x ∷ xs) = (refl, omega arith)

next_end : (n : ℕ) (f : List ℕ) → 0 < n → (next_byte n f).0 ≡ [] → (next_byte n f).1 ≡ []
next_end zero f h e = absurd (omega arith)
next_end (suc n) [] h e = refl
next_end (suc n) (x ∷ xs) h e = cc

files-IsSource : IsSource files 3 (λ f. f)
files-IsSource = record {
  read_bound = λ n f bytes e. subst (λ l. length l ≤ n) (some-injective e) (next_split n f).1;
  content-read =
      λ n f bytes e. (next_split n f).0 ∙ ap (λ l. l ++ (next_byte n f).1) (some-injective e);
  content-read_failed = λ n f e. cc;
  content-read_end = λ n f h e. next_end n f h (some-injective e);
}

copies_from_file-Complete_example :
    Ensures
      (λ s.
        Complete sink (λ s. s) files (λ e. (e, e + 1)) (λ s. s.waits_left) (λ f. f) 3 s
        × (s.socket.bytes ≡ 90 ∷ 65 ∷ 66 ∷ []))
      (run_schedule (deliver sink (λ s. s) files (λ e. (e, e + 1))) (turns 5) (
        copy_from_file_descriptor sink
          (λ s. s)
          files
          (λ e. (e, e + 1))
          3
          (0 ∷ 0 ∷ [])
          9
          4
          (record { bytes = 90 ∷ []; waits_left = 2 })
          (65 ∷ 66 ∷ [])
          1))
copies_from_file-Complete_example =
    copies_from_file-Complete sink (λ s. s) files (λ e. (e, e + 1)) (λ s. s.bytes)
      (λ s. s.waits_left) (λ f. f) 3 sink-IsSink files-IsSource
      (λ bytes s h. sink-Advances s.waits_left bytes s.bytes h) (λ n f h. ((next_byte n f).0, refl))
      (0 ∷ 0 ∷ []) (omega arith) 9 4 (record { bytes = 90 ∷ []; waits_left = 2 }) (65 ∷ 66 ∷ []) 1 5
      (omega arith)
