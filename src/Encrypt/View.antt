-- ===== src/Encrypt/View.antt =====
-- P4: xv6 Memory Encryption/vm.c: what a process sees of its pages, encrypted or not.
use compsci537_introduction.Common.{
  ℕ, ◌≡◌, ◌≢◌, refl, sym, ap, ◌∙◌, Bool, true, false, Option, none, some, List, [], ◌==◌, ==_iff,
  ◌⊎◌, ◌&&◌, ◌||◌, not, if◌then◌else◌, arith, Bool-cases, inl, inr,
}
use compsci537_introduction.Common.Maps.{update, update_self, update_ne}
use compsci537_introduction.Encrypt.{Pte, Vm, flip, set_entry, flip_frame}
use compsci537_introduction.Encrypt.Flip.{IsBytes, flip_twice, flip-IsBytes}

-- The bytes of a page as the process wrote them.
abbrev pub shown : (ℕ → List ℕ) → Option Pte → List ℕ
shown frames none = []
shown frames (some e) = if e.encrypted then flip (frames e.frame) else frames e.frame

abbrev pub plain : Vm → ℕ → List ℕ
plain vm p = shown vm.frames (vm.entries p)

-- The process may use the page: it is a user page, in the clear or encrypted.
abbrev pub is_usable : Pte → Bool
is_usable e = e.user && (e.encrypted || e.present)

-- No two pages that the process may use share a frame, and an encrypted page is not present. Other
-- entries may share frames: the kernel's, which map all of memory, and those that map nothing.
pub record IsSane (vm : Vm) : Type 0 where
  pub bytes : (f : ℕ) → IsBytes (vm.frames f)
  pub own :
      (p q : ℕ) (e f : Pte)
      → vm.entries p ≡ some e
      → vm.entries q ≡ some f
      → is_usable e ≡ true
      → is_usable f ≡ true
      → e.frame ≡ f.frame
      → p ≡ q
  pub exclusive : (p : ℕ) (e : Pte) → vm.entries p ≡ some e → e.encrypted ≡ true → e.present ≡ false

-- An entry after a change of its flags for encryption and use.
pub record SamePage (e e' : Pte) : Type 0 where
  pub frame : e'.frame ≡ e.frame
  pub user : e'.user ≡ e.user
  pub writable : e'.writable ≡ e.writable
  pub mapped : is_usable e' ≡ is_usable e

-- The process sees the same memory before and after: every page that it may use, encrypted or not,
-- has the same frame and the same bytes, and stays usable.
pub record SameView (vm vm' : Vm) : Type 0 where
  pub pages :
      (p : ℕ) (e : Pte)
      → vm.entries p ≡ some e
      → (e' : Pte) × (vm'.entries p ≡ some e') × SamePage e e'
  pub contents :
      (p : ℕ) (e : Pte) → vm.entries p ≡ some e → is_usable e ≡ true → plain vm' p ≡ plain vm p

pub SameView-refl : (vm : Vm) → SameView vm vm
SameView-refl vm = record {
  pages = λ p e h. (e, h, record { frame = refl; user = refl; writable = refl; mapped = refl });
  contents = λ p e h m. refl;
}

pub SameView-trans : (a b c : Vm) → SameView a b → SameView b c → SameView a c
SameView-trans a b c s t = record {
  pages = λ p e h.
      let (e', h', k) = s.pages p e h in
      let (e'', h'', l) = t.pages p e' h' in
      (
        e'',
        h'',
        record {
          frame = l.frame ∙ k.frame;
          user = l.user ∙ k.user;
          writable = l.writable ∙ k.writable;
          mapped = l.mapped ∙ k.mapped;
        },
      );
  contents = λ p e h m.
      let (e', h', k) = s.pages p e h in t.contents p e' h' (k.mapped ∙ m) ∙ s.contents p e h m;
}

-- What an entry is after another was written to page `p`.
pub entry_cases :
    (vm : Vm) (p q : ℕ) (e' f : Pte)
    → update vm.entries p (some e') q ≡ some f
    → ((q ≡ p) × (f ≡ e')) ⊎ ((q ≢ p) × (vm.entries q ≡ some f))
unfolding update
entry_cases vm p q e' f h = elim (Bool-cases (q == p)) [
  | inl y ↦ inl (ground arith)
  | inr n ↦ inr (ground arith)
]

-- A write to the entry of page `p`, which holds `e`.
module _ (vm : Vm) (p : ℕ) (e e' : Pte) (here : vm.entries p ≡ some e) (same : SamePage e e')
    (sane : IsSane vm) (used : is_usable e ≡ true)
    (apart : e'.encrypted ≡ true → e'.present ≡ false) where
  write_pages :
      (q : ℕ) (f : Pte)
      → vm.entries q ≡ some f
      → (f' : Pte) × (update vm.entries p (some e') q ≡ some f') × SamePage f f'
  write_pages q f h = elim (Bool-cases (q == p)) [
    | inl y ↦
        let at_p : q ≡ p = (==_iff q p).0 y in
        let f_e : f ≡ e = cc in
        (
          e',
          ap (update vm.entries p (some e')) at_p ∙ update_self vm.entries p (some e'),
          record {
            frame = same.frame ∙ ap (λ (x : Pte). x.frame) (sym f_e);
            user = same.user ∙ ap (λ (x : Pte). x.user) (sym f_e);
            writable = same.writable ∙ ap (λ (x : Pte). x.writable) (sym f_e);
            mapped = same.mapped ∙ ap is_usable (sym f_e);
          },
        )
    | inr n ↦ (
      f,
      update_ne vm.entries p (some e') q (ground arith) ∙ h,
      record { frame = refl; user = refl; writable = refl; mapped = refl },
    )
  ]

  write_own :
      (q r : ℕ) (f g : Pte)
      → update vm.entries p (some e') q ≡ some f
      → update vm.entries p (some e') r ≡ some g
      → is_usable f ≡ true
      → is_usable g ≡ true
      → f.frame ≡ g.frame
      → q ≡ r
  write_own q r f g h k mf mg eq =
      let to_e = same.frame in
      elim (entry_cases vm p q e' f h) [
        | inl (a, b) ↦ elim (entry_cases vm p r e' g k) [
          | inl (c, d) ↦ a ∙ sym c
          | inr (c, d) ↦
              a
              ∙ sane.own p r e g here d used mg (sym to_e ∙ ap (λ (x : Pte). x.frame) (sym b) ∙ eq)
        ]
        | inr (a, b) ↦ elim (entry_cases vm p r e' g k) [
          | inl (c, d) ↦
              sane.own q p f e b here mf used (eq ∙ ap (λ (x : Pte). x.frame) d ∙ to_e) ∙ sym c
          | inr (c, d) ↦ sane.own q r f g b d mf mg eq
        ]
      ]

  write_exclusive :
      (q : ℕ) (f : Pte)
      → update vm.entries p (some e') q ≡ some f
      → f.encrypted ≡ true
      → f.present ≡ false
  write_exclusive q f h enc = elim (entry_cases vm p q e' f h) [
    | inl (a, b) ↦ rw b (apart (rw b at enc))
    | inr (a, b) ↦ sane.exclusive q f b enc
  ]

  -- A write of flags that leaves the encryption bit.
  pub mark-IsSane : IsSane (set_entry p e' vm)
  mark-IsSane = record { bytes = sane.bytes; own = write_own; exclusive = write_exclusive }

  -- The entries after the write, at the page and elsewhere.
  written : update vm.entries p (some e') p ≡ some e'
  written = update_self vm.entries p (some e')

  elsewhere : (q : ℕ) → (q == p) ≡ false → update vm.entries p (some e') q ≡ vm.entries q
  elsewhere q n = update_ne vm.entries p (some e') q (ground arith)

  pub mark-SameView : e'.encrypted ≡ e.encrypted → SameView vm (set_entry p e' vm)
  mark-SameView still = record { pages = write_pages; contents = kept }
    where
      at_page : plain (set_entry p e' vm) p ≡ plain vm p
      at_page =
          let f = same.frame in
          let shows : shown vm.frames (some e') ≡ shown vm.frames (some e) = ground arith in
          ap (shown vm.frames) written ∙ shows ∙ ap (shown vm.frames) (sym here)

      kept :
          (q : ℕ) (f : Pte)
          → vm.entries q ≡ some f
          → is_usable f ≡ true
          → plain (set_entry p e' vm) q ≡ plain vm q
      kept q f h m = elim (Bool-cases (q == p)) [
        | inl y ↦
            let at_p : q ≡ p = (==_iff q p).0 y in
            ap (plain (set_entry p e' vm)) at_p ∙ at_page ∙ ap (plain vm) (sym at_p)
        | inr n ↦ ap (shown vm.frames) (elsewhere q n)
      ]

  -- Flipping the page and its encryption bit.
  pub toggle-IsSane : IsSane (flip_frame e.frame (set_entry p e' vm))
  toggle-IsSane = record { bytes = toggle_bytes; own = write_own; exclusive = write_exclusive }
    where
      toggle_bytes : (f : ℕ) → IsBytes (update vm.frames e.frame (flip (vm.frames e.frame)) f)
      toggle_bytes f = elim (Bool-cases (f == e.frame)) [
        | inl y ↦
            let at_f : f ≡ e.frame = (==_iff f e.frame).0 y in
            rw at_f (
              rw (update_self vm.frames e.frame (flip (vm.frames e.frame)))
                (flip-IsBytes (vm.frames e.frame) (sane.bytes e.frame)))
        | inr n ↦
            rw (update_ne vm.frames e.frame (flip (vm.frames e.frame)) f (ground arith))
              (sane.bytes f)
      ]

  -- Another page has another frame, whose bytes stay.
  toggle_other :
      (q : ℕ) (f : Pte)
      → vm.entries q ≡ some f
      → is_usable f ≡ true
      → q ≢ p
      → shown (update vm.frames e.frame (flip (vm.frames e.frame))) (some f)
        ≡ shown vm.frames (some f)
  toggle_other q f h m n =
      let apart_frames : f.frame ≢ e.frame = λ eq. n (sane.own q p f e h here m used eq) in
      rw (update_ne vm.frames e.frame (flip (vm.frames e.frame)) f.frame apart_frames) refl

  toggle_page :
      (b : Bool)
      → e.encrypted ≡ b
      → e'.encrypted ≡ not b
      → shown (update vm.frames e.frame (flip (vm.frames e.frame))) (some e')
        ≡ shown vm.frames (some e)
  toggle_page true k l =
      let new = update_self vm.frames e.frame (flip (vm.frames e.frame)) in
      rw (k, l, same.frame, new) refl
  toggle_page false k l =
      let new = update_self vm.frames e.frame (flip (vm.frames e.frame)) in
      rw (k, l, same.frame, new) (flip_twice (vm.frames e.frame) (sane.bytes e.frame))

  pub toggle-SameView :
      e'.encrypted ≡ not e.encrypted → SameView vm (flip_frame e.frame (set_entry p e' vm))
  toggle-SameView flips = record { pages = write_pages; contents = kept }
    where
      kept :
          (q : ℕ) (f : Pte)
          → vm.entries q ≡ some f
          → is_usable f ≡ true
          → plain (flip_frame e.frame (set_entry p e' vm)) q ≡ plain vm q
      kept q f h m = elim (Bool-cases (q == p)) [
        | inl y ↦
            let at_p : q ≡ p = (==_iff q p).0 y in
            ap
              (λ r.
                shown (update vm.frames e.frame (flip (vm.frames e.frame)))
                  (update vm.entries p (some e') r))
              at_p
            ∙ ap (shown (update vm.frames e.frame (flip (vm.frames e.frame)))) written
            ∙ toggle_page e.encrypted refl flips
            ∙ ap (shown vm.frames) (sym here)
            ∙ ap (plain vm) (sym at_p)
        | inr n ↦
            ap (shown (update vm.frames e.frame (flip (vm.frames e.frame)))) (elsewhere q n)
            ∙ ap (shown (update vm.frames e.frame (flip (vm.frames e.frame)))) h
            ∙ toggle_other q f h m (ground arith)
            ∙ ap (shown vm.frames) (sym h)
      ]
