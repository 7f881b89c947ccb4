-- ===== src/Pipe/Write.antt =====
-- P2A: Scheduling/pipe.c: `pipewrite` on the queue.
use compsci537_introduction.Common.{
  ℕ, ◌≡◌, refl, sym, ap, ◌∙◌, true, false, Bool, [], ◌∷◌, ◌++◌, List, inl, inr, Bool-cases, ◌||◌,
  not,
}
use mathlib.Core.List.{append_assoc, append-nil}
use compsci537_introduction.Pipe.{
  Pipe, Side, readers, pipesize, is_full, push, pipewrite, Written, all_written, write_failed,
  write_sleeps,
}
use compsci537_introduction.Pipe.Queue.{
  used, contents, IsValid, used_full, used_full_true, push-IsValid, push-contents,
}

-- How a write may end, with the bytes `left` and the channels woken.
abbrev pub WriteEnd : Bool → Pipe → List ℕ → List Side → Written → Type 0
WriteEnd killed q left woken all_written = (left ≡ []) × (woken ≡ readers ∷ [])
WriteEnd killed q left woken write_failed =
    (used q ≡ pipesize) × ((not q.readopen || killed) ≡ true) × (woken ≡ [])
WriteEnd killed q left woken (write_sleeps more) =
    (left ≡ more)
    × (used q ≡ pipesize)
    × ((not q.readopen || killed) ≡ false)
    × (woken ≡ readers ∷ [])

-- What one step of a write does to the queue.
pub record Wrote (killed : Bool) (p : Pipe) (bytes : List ℕ) (end : Written) (q : Pipe)
    (woken : List Side) : Type 0 where
  pub sent : List ℕ
  pub left : List ℕ
  pub split : bytes ≡ sent ++ left
  pub queued : contents q ≡ contents p ++ sent
  pub valid : IsValid q
  pub readable : q.readopen ≡ p.readopen
  pub writable : q.writeopen ≡ p.writeopen
  pub ending : WriteEnd killed q left woken end

-- One byte more in front.
later :
    (killed : Bool) (p : Pipe) (byte : ℕ) (bytes : List ℕ) (end : Written) (q : Pipe)
    (woken : List Side)
    → IsValid p
    → is_full p ≡ false
    → Wrote killed (push p byte) bytes end q woken
    → Wrote killed p (byte ∷ bytes) end q woken
later killed p byte bytes end q woken v room w = record {
  sent = byte ∷ w.sent;
  left = w.left;
  split = ap (λ bs. byte ∷ bs) w.split;
  queued =
      w.queued
      ∙ ap (λ bs. bs ++ w.sent) (push-contents p byte v (used_full p v room))
      ∙ append_assoc (contents p) (byte ∷ []) w.sent;
  valid = w.valid;
  readable = w.readable;
  writable = w.writable;
  ending = w.ending;
}

-- Nothing written.
stuck :
    (killed : Bool) (p : Pipe) (bytes : List ℕ) (end : Written) (woken : List Side)
    → IsValid p
    → WriteEnd killed p bytes woken end
    → Wrote killed p bytes end p woken
stuck killed p bytes end woken v e = record {
  sent = [];
  left = bytes;
  split = refl;
  queued = sym (append-nil (contents p));
  valid = v;
  readable = refl;
  writable = refl;
  ending = e;
}

-- A step of `pipewrite` on a valid pipe appends the bytes it sends, a prefix of its argument, to the
-- queue. It wakes the readers and ends when all are sent; otherwise the queue is full, and the
-- step fails when the read end is closed or the process is killed, and else wakes the readers and
-- sleeps with the bytes that are left.
pub pipewrite-Wrote :
    (killed : Bool) (p : Pipe) (bytes : List ℕ)
    → IsValid p
    → (let (end, q, woken) = pipewrite killed p bytes in Wrote killed p bytes end q woken)
unfolding pipewrite
pipewrite-Wrote killed p [] v = stuck killed p [] all_written (readers ∷ []) v (refl, refl)
pipewrite-Wrote killed p (byte ∷ bytes) v = elim (Bool-cases (is_full p)) [
  | inl full ↦ elim (Bool-cases (not p.readopen || killed)) [
    | inl dead ↦
        let w =
          stuck killed p (byte ∷ bytes) write_failed [] v (used_full_true p v full, dead, refl) in
        rw (full, dead) w
    | inr lives ↦
        let end = write_sleeps (byte ∷ bytes) in
        let w =
          stuck killed p (byte ∷ bytes) end (readers ∷ []) v
            (refl, used_full_true p v full, lives, refl) in
        rw (full, lives) w
  ]
  | inr room ↦
      let next =
        pipewrite-Wrote killed (push p byte) bytes (push-IsValid p byte v (used_full p v room)) in
      let w = later killed p byte bytes _ _ _ v room next in rw room w
]
