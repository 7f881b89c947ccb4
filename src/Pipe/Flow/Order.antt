-- ===== src/Pipe/Flow/Order.antt =====
-- P2A: Scheduling/pipe.c: what one step of a pipe's reader or writer keeps.
use compsci537_introduction.Common.{
  ℕ, ◌≡◌, refl, sym, ap, ◌∙◌, true, false, Bool, [], ◌++◌, List, if◌then◌else◌, arith,
}
use mathlib.Core.Path.{subst}
use mathlib.Core.List.{append_assoc, append-nil}
use compsci537_introduction.Pipe.{
  Pipe, Side, readers, writers, pipesize, pipeclose, Written, all_written, write_failed,
  write_sleeps, Received, received, read_failed, read_sleeps,
}
use compsci537_introduction.Pipe.Queue.{used, contents, IsValid}
use compsci537_introduction.Pipe.Write.{Wrote, pipewrite-Wrote}
use compsci537_introduction.Pipe.Read.{ReadEnd, piperead-ReadEnd}
use compsci537_introduction.Pipe.Flow.{
  Flow, Mode, idle, ready, asleep, is_woken, rouse, read_ended, read_runs, write_ended, write_runs,
  closed, Step, read_called, write_called, reader_ran, writer_ran, reader_closed, writer_closed,
}

-- The bytes that a write call has still to put in the pipe.
abbrev pub pending : Mode (List ℕ) → List ℕ
pending idle = []
pending (ready bytes) = bytes
pending (asleep bytes) = bytes

-- A reader in a call has its end open, and sleeps only on an empty pipe that may still be written.
abbrev pub ReaderSound : Pipe → Mode ℕ → Type 0
ReaderSound p idle = Unit
ReaderSound p (ready n) = p.readopen ≡ true
ReaderSound p (asleep n) = (p.readopen ≡ true) × (contents p ≡ []) × (p.writeopen ≡ true)

-- A writer in a call has its end open, and sleeps only on a full pipe that may still be read.
abbrev pub WriterSound : Pipe → Mode (List ℕ) → Type 0
WriterSound p idle = Unit
WriterSound p (ready bytes) = p.writeopen ≡ true
WriterSound p (asleep bytes) = (p.writeopen ≡ true) × (used p ≡ pipesize) × (p.readopen ≡ true)

-- What every run keeps.
pub record IsSound (f : Flow) : Type 0 where
  pub valid : IsValid f.pipe
  -- Until the read end is closed, the bytes given are those got, those in the pipe and those still
  -- to be written, in this order.
  pub in_order : f.pipe.readopen ≡ true → f.given ≡ f.got ++ (contents f.pipe ++ pending f.writer)
  pub reading : ReaderSound f.pipe f.reader
  pub writing : WriterSound f.pipe f.writer

roused : (m : Mode (List ℕ)) → pending (rouse true m) ≡ pending m
unfolding rouse
roused idle = refl
roused (ready bytes) = refl
roused (asleep bytes) = refl

-- A roused process asks only for its own end.
reader_roused :
    (p q : Pipe) (m : Mode ℕ)
    → q.readopen ≡ p.readopen
    → ReaderSound p m
    → ReaderSound q (rouse true m)
unfolding rouse
reader_roused p q idle e s = _
reader_roused p q (ready n) e s = e ∙ s
reader_roused p q (asleep n) e s = e ∙ s.0

writer_roused :
    (p q : Pipe) (m : Mode (List ℕ))
    → q.writeopen ≡ p.writeopen
    → WriterSound p m
    → WriterSound q (rouse true m)
unfolding rouse
writer_roused p q idle e s = _
writer_roused p q (ready bytes) e s = e ∙ s
writer_roused p q (asleep bytes) e s = e ∙ s.0

rouse_no : {A : Type 0} (m : Mode A) → rouse false m ≡ m
unfolding rouse
rouse_no idle = refl
rouse_no (ready a) = refl
rouse_no (asleep a) = refl

read_ended-IsSound :
    (f : Flow) (n : ℕ) (end : Received) (q : Pipe) (woken : List Side)
    → IsSound f
    → f.reader ≡ ready n
    → ReadEnd false f.pipe n q woken end
    → IsSound
        (read_ended end n (record f { pipe = q; writer = rouse (is_woken writers woken) f.writer }))
unfolding read_ended is_woken
read_ended-IsSound f n (received out) q woken s called (c, woke, open_end) = rw woke record {
  valid = c.valid;
  in_order = λ o.
      s.in_order (sym c.readable ∙ o)
      ∙ ap (λ bs. f.got ++ (bs ++ pending f.writer)) c.queued
      ∙ ap (λ bs. f.got ++ bs) (append_assoc out (contents q) (pending f.writer))
      ∙ sym (append_assoc f.got out (contents q ++ pending f.writer))
      ∙ ap (λ bs. (f.got ++ out) ++ (contents q ++ bs)) (sym (roused f.writer));
  reading = _;
  writing = writer_roused f.pipe q f.writer c.writable s.writing;
}
read_ended-IsSound f n read_failed q woken s called (same, empty, o, killed, woke) = absurd cc
read_ended-IsSound f n read_sleeps q woken s called (same, empty, o, killed, woke) =
    let r : ReaderSound f.pipe (ready n) = subst (ReaderSound f.pipe) called s.reading in
    rw (woke, same, rouse_no f.writer)
      record {
        valid = s.valid;
        in_order = s.in_order;
        reading = (r, empty, o);
        writing = s.writing;
      }

-- The bytes in order after a step of a write.
after_write :
    (f : Flow) (bytes : List ℕ) (end : Written) (q : Pipe) (woken : List Side)
    → IsSound f
    → f.writer ≡ ready bytes
    → (w : Wrote false f.pipe bytes end q woken) → q.readopen ≡ true
    → f.given ≡ f.got ++ (contents q ++ w.left)
after_write f bytes end q woken s called w o =
    let before = s.in_order (sym w.readable ∙ o) in
    before
    ∙ ap (λ m. f.got ++ (contents f.pipe ++ pending m)) called
    ∙ ap (λ bs. f.got ++ (contents f.pipe ++ bs)) w.split
    ∙ ap (λ bs. f.got ++ bs) (sym (append_assoc (contents f.pipe) w.sent w.left))
    ∙ ap (λ bs. f.got ++ (bs ++ w.left)) (sym w.queued)

-- A failed write found the read end closed, so no reader is in a call.
no_reader : (p : Pipe) (m : Mode ℕ) → p.readopen ≡ false → ReaderSound p m → m ≡ idle
no_reader p idle e s = refl
no_reader p (ready n) e s = absurd cc
no_reader p (asleep n) e s = absurd (let o = s.0 in cc)

write_ended-IsSound :
    (f : Flow) (bytes : List ℕ) (end : Written) (q : Pipe) (woken : List Side)
    → IsSound f
    → f.writer ≡ ready bytes
    → Wrote false f.pipe bytes end q woken
    → IsSound
        (write_ended end (record f { pipe = q; reader = rouse (is_woken readers woken) f.reader }))
unfolding write_ended is_woken
write_ended-IsSound f bytes all_written q woken s called w =
    let (none_left, woke) = w.ending in
    rw woke record {
      valid = w.valid;
      in_order = λ o.
          after_write f bytes all_written q woken s called w o
          ∙ ap (λ bs. f.got ++ (contents q ++ bs)) none_left;
      reading = reader_roused f.pipe q f.reader w.readable s.reading;
      writing = _;
    }
write_ended-IsSound f bytes write_failed q woken s called w =
    let (full, dead, woke) = w.ending in
    let shut : q.readopen ≡ false = ground arith in
    let gone = no_reader f.pipe f.reader (sym w.readable ∙ shut) s.reading in
    rw (woke, rouse_no f.reader, gone)
      record { valid = w.valid; in_order = λ o. absurd cc; reading = _; writing = _ }
write_ended-IsSound f bytes (write_sleeps more) q woken s called w =
    let (rest, full, lives, woke) = w.ending in
    let o : q.readopen ≡ true = ground arith in
    let r : WriterSound f.pipe (ready bytes) = subst (WriterSound f.pipe) called s.writing in
    rw woke record {
      valid = w.valid;
      in_order = λ _.
          after_write f bytes (write_sleeps more) q woken s called w o
          ∙ ap (λ bs. f.got ++ (contents q ++ bs)) rest;
      reading = reader_roused f.pipe q f.reader w.readable s.reading;
      writing = (w.writable ∙ r, full, o);
    }

-- Closing an end wakes the processes at the other end.
closed-IsSound :
    (f : Flow) (writable : Bool)
    → (if writable then f.writer ≡ idle else f.reader ≡ idle)
    → IsSound f
    → IsSound (closed f writable)
unfolding closed pipeclose is_woken
closed-IsSound f true quiet s = rw quiet record {
  valid = record {
    page = s.valid.page;
    reads = s.valid.reads;
    writes = s.valid.writes;
    fits = s.valid.fits;
  };
  in_order = λ o. s.in_order o ∙ ap (λ m. f.got ++ (contents f.pipe ++ pending m)) quiet;
  reading = reader_roused f.pipe (record f.pipe { writeopen = false }) f.reader refl s.reading;
  writing = _;
}
closed-IsSound f false quiet s = rw quiet record {
  valid = record {
    page = s.valid.page;
    reads = s.valid.reads;
    writes = s.valid.writes;
    fits = s.valid.fits;
  };
  in_order = λ o. absurd cc;
  reading = _;
  writing = writer_roused f.pipe (record f.pipe { readopen = false }) f.writer refl s.writing;
}

pub Step-IsSound : (f g : Flow) → Step f g → IsSound f → IsSound g
unfolding read_runs write_runs
Step-IsSound f _ (read_called n quiet o) s = record {
  valid = s.valid;
  in_order = s.in_order;
  reading = o;
  writing = s.writing;
}
Step-IsSound f _ (write_called bytes quiet o) s = record {
  valid = s.valid;
  in_order = λ r.
      ap (λ bs. bs ++ bytes)
        (s.in_order r
          ∙ ap (λ m. f.got ++ (contents f.pipe ++ pending m)) quiet
          ∙ ap (λ bs. f.got ++ bs) (append-nil (contents f.pipe)))
      ∙ append_assoc f.got (contents f.pipe) bytes;
  reading = s.reading;
  writing = o;
}
Step-IsSound f _ (reader_ran n called) s =
    read_ended-IsSound f n _ _ _ s called (piperead-ReadEnd false f.pipe n s.valid)
Step-IsSound f _ (writer_ran bytes called) s =
    write_ended-IsSound f bytes _ _ _ s called (pipewrite-Wrote false f.pipe bytes s.valid)
Step-IsSound f _ (reader_closed quiet) s = closed-IsSound f false quiet s
Step-IsSound f _ (writer_closed quiet) s = closed-IsSound f true quiet s
