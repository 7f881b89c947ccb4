-- ===== src/Pipe/Read.antt =====
-- P2A: Scheduling/pipe.c: `piperead` on the queue.
use compsci537_introduction.Common.{
  ℕ, zero, suc, ◌≤◌, ◌<◌, ◌+◌, ◌≡◌, refl, sym, ap, ◌≢◌, ◌∙◌, true, false, Bool, [], ◌∷◌, ◌++◌, List,
  inl, inr, Bool-cases, ◌&&◌, if◌then◌else◌, arith, length, ◌==◌, get_or, ◌%◌,
}
use compsci537_introduction.Common.Words.{u32}
use compsci537_introduction.Pipe.{
  Pipe, Side, writers, pipesize, copy_out, piperead, Received, received, read_failed, read_sleeps,
}
use compsci537_introduction.Pipe.Queue.{used, contents, IsValid, window, pop-used}

-- What copying out does.
pub record Copied (p : Pipe) (n : ℕ) (out : List ℕ) (q : Pipe) : Type 0 where
  pub queued : contents p ≡ out ++ contents q
  pub most : length out ≤ n
  -- Short only when it emptied the pipe.
  pub short : length out < n → contents q ≡ []
  pub valid : IsValid q
  pub readable : q.readopen ≡ p.readopen
  pub writable : q.writeopen ≡ p.writeopen

empty : (p : Pipe) → IsValid p → (p.nread == p.nwrite) ≡ true → contents p ≡ []
unfolding window
empty p v e =
    let r = v.reads in
    let none_left : used p ≡ 0 = ground arith in ap (window p.bytes p.nread) none_left

succ_of : (n : ℕ) → n ≢ 0 → (m : ℕ) × (n ≡ suc m)
succ_of zero h = absurd (h refl)
succ_of (suc n) h = (n, refl)

-- The counters after a byte is taken.
module _ (p : Pipe) (v : IsValid p) (e : (p.nread == p.nwrite) ≡ false) where
  abbrev taken : Pipe
  taken = record p { nread = u32 (p.nread + 1) }

  used-taken : (n : ℕ) × (used p ≡ suc n)
  used-taken = succ_of (used p) (let r = v.reads in let w = v.writes in ground arith)

  taken-IsValid : IsValid taken
  taken-IsValid =
      let (n, eq) = used-taken in
      let f = v.fits in
      record {
        page = v.page;
        reads = omega arith;
        writes = v.writes;
        fits = omega (arith, eq, pop-used p.nread p.nwrite n v.reads v.writes eq);
      }

  taken-contents : contents p ≡ get_or p.bytes (p.nread % pipesize) 0 ∷ contents taken
  unfolding window
  taken-contents =
      let (n, eq) = used-taken in
      ap (window p.bytes p.nread) eq
      ∙ ap (λ k. get_or p.bytes (p.nread % pipesize) 0 ∷ window p.bytes (u32 (p.nread + 1)) k)
          (sym (pop-used p.nread p.nwrite n v.reads v.writes eq))

copy_out-Copied : (p : Pipe) (n : ℕ) → IsValid p → (let (out, q) = copy_out p n in Copied p n out q)
unfolding copy_out
copy_out-Copied p zero v = record {
  queued = refl;
  most = omega arith;
  short = λ h. absurd (omega arith);
  valid = v;
  readable = refl;
  writable = refl;
}
copy_out-Copied p (suc n) v = elim (Bool-cases (p.nread == p.nwrite)) [
  | inl e ↦
      let c : Copied p (suc n) [] p = record {
        queued = refl;
        most = omega arith;
        short = λ h. empty p v e;
        valid = v;
        readable = refl;
        writable = refl;
      } in
      rw e c
  | inr e ↦
      let c = copy_out-Copied (taken p v e) n (taken-IsValid p v e) in
      let d : Copied p (suc n)
          (get_or p.bytes (p.nread % pipesize) 0 ∷ (copy_out (taken p v e) n).0)
          (copy_out (taken p v e) n).1 =
        record {
          queued =
              taken-contents p v e ∙ ap (λ bs. get_or p.bytes (p.nread % pipesize) 0 ∷ bs) c.queued;
          most = omega (arith, c.most);
          short = λ h. c.short (omega arith);
          valid = c.valid;
          readable = c.readable;
          writable = c.writable;
        } in
      rw e d
]

-- How a read of at most `n` bytes may end, with the channels woken.
abbrev pub ReadEnd : Bool → Pipe → ℕ → Pipe → List Side → Received → Type 0
ReadEnd killed p n q woken (received out) =
    Copied p n out q × (woken ≡ writers ∷ []) × (contents p ≡ [] → p.writeopen ≡ false)
ReadEnd killed p n q woken read_failed =
    (q ≡ p) × (contents p ≡ []) × (p.writeopen ≡ true) × (killed ≡ true) × (woken ≡ [])
ReadEnd killed p n q woken read_sleeps =
    (q ≡ p) × (contents p ≡ []) × (p.writeopen ≡ true) × (killed ≡ false) × (woken ≡ [])

nonempty : (p : Pipe) → IsValid p → (p.nread == p.nwrite) ≡ false → contents p ≢ []
unfolding window
nonempty p v e none_left =
    let (n, eq) = used-taken p v e in
    let gone : window p.bytes p.nread (suc n) ≡ [] =
      sym (ap (window p.bytes p.nread) eq) ∙ none_left in
    cc

-- The guard of `piperead`, by cases of its two tests.
ending :
    (killed : Bool) (p : Pipe) (n : ℕ) (out : List ℕ) (q : Pipe) (is_empty is_open : Bool)
    → p.writeopen ≡ is_open
    → (is_empty ≡ true → contents p ≡ [])
    → (is_empty ≡ false → contents p ≢ [])
    → Copied p n out q
    → (let (end, after, woken) : Received × Pipe × List Side =
          if is_empty && is_open
          then (if killed then (read_failed, p, []) else (read_sleeps, p, []))
          else (received out, q, writers ∷ []) in
        ReadEnd killed p n after woken end)
ending true p n out q true true o e d c = (refl, e refl, o, refl, refl)
ending false p n out q true true o e d c = (refl, e refl, o, refl, refl)
ending killed p n out q true false o e d c = (c, refl, λ h. o)
ending killed p n out q false is_open o e d c = (c, refl, λ h. absurd (d refl h))

-- A step of `piperead` on a valid pipe takes the oldest bytes off the queue, at most `n`, fewer only
-- when that empties it, and wakes the writers. On an empty pipe whose write end is open it changes
-- nothing and fails if the process is killed, and else sleeps.
pub piperead-ReadEnd :
    (killed : Bool) (p : Pipe) (n : ℕ)
    → IsValid p
    → (let (end, q, woken) = piperead killed p n in ReadEnd killed p n q woken end)
unfolding piperead
piperead-ReadEnd killed p n v =
    ending killed p n (copy_out p n).0 (copy_out p n).1 (p.nread == p.nwrite) p.writeopen refl
      (empty p v) (nonempty p v) (copy_out-Copied p n v)
