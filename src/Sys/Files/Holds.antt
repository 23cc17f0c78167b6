-- ===== src/Sys/Files/Holds.antt =====
-- An invariant of the world about one target file: readers see one text, crashes one of two, and no
-- call has left a file system in which they did not.
use safeatomic.Prelude.{
  ℕ, ◌≤◌, ◌≡◌, inl, inr, Option, some, List, [], ◌∷◌, Bytes, All, arith, Bool-cases,
}
use mathlib.Core.Path.{subst}
use mathlib.Core.Option.{some-injective}
use safeatomic.Prelude.Eq.{◌==◌, nat_eq}
use safeatomic.Sys.Fs.{FilePath, path_eq, Fs, visible, crashed_early, crashed_late}
use safeatomic.Sys.World.{Fault, pass, short, fail, Handle, file, folder, World}
use safeatomic.Sys.Calls.{
  Reply, done, refused, first_fault, later_faults, settle, attempt, call, lookup_fd, erase_fd,
}
use safeatomic.Sys.Logic.Keeps.{Keeps}
use safeatomic.Sys.Logic.Ends.{Ends}
use safeatomic.Sys.Files.{OneOf, Settled, Anchored, Clear, AllClear, AllLow, Unheld}

-- A reader of the target, now and after a crash, sees `c` or `d`.
abbrev pub Good : FilePath → Option Bytes → Option Bytes → Fs → Type 0
Good target c d fs =
    OneOf c d (visible fs target)
    × OneOf c d (crashed_late fs target)
    × OneOf c d (crashed_early fs target)

-- Work of other processes that leaves the target alone.
abbrev pub Calm : FilePath → (Fs → Fs) → Type 0
Calm target f =
    (a b v : Option Bytes) (fs : Fs)
    → Settled target a b v fs
    → Settled target a b v (f fs) × Anchored target fs (f fs)

pub record Holds (target : FilePath) (c d a b v : Option Bytes) (w : World) : Type 0 where
  pub settled : Settled target a b v w.fs
  pub clear : AllClear (w.fs.names target) (w.fs.saved_names target) w.fds
  pub held : AllLow w.fs.next w.fds
  pub past : All (Good target c d) w.trace
  pub calm : All (Calm target) w.others

-- The lookups are sums of equations; the choice of `a` or `b` is carried over to `c` or `d`.
pub one_of :
    {c d a b : Option Bytes}
    → OneOf c d a
    → OneOf c d b
    → (x : Option Bytes) → OneOf a b x
    → OneOf c d x
one_of ha hb x h = ground arith

pub AllClear-Anchored :
    (target : FilePath) (fs fs' : Fs) (fds : List (ℕ × Handle))
    → Anchored target fs fs'
    → AllClear (fs.names target) (fs.saved_names target) fds
    → AllClear (fs'.names target) (fs'.saved_names target) fds
AllClear-Anchored target fs fs' [] h c = tt
AllClear-Anchored target fs fs' ((k, folder d) ∷ fds) h c =
    (tt, AllClear-Anchored target fs fs' fds h c.1)
AllClear-Anchored target fs fs' ((k, file i) ∷ fds) h c = (
  elim h.same_saved [ inl e ↦ rw (h.same, e) c.0 | inr e ↦ rw (h.same, e) (c.0.0, c.0.0) ],
  AllClear-Anchored target fs fs' fds h c.1,
)

pub Clear-lookup :
    (n s : Option ℕ) (k : ℕ) (fds : List (ℕ × Handle)) {h : Handle}
    → AllClear n s fds
    → lookup_fd k fds ≡ some h
    → Clear n s h
Clear-lookup n s k [] c e = absurd (cc)
Clear-lookup n s k ((j, h') ∷ fds) {h} c e = elim (Bool-cases (k == j)) [
  | inl f ↦ subst (λ x. Clear n s x) (some-injective h' h (rw f at e)) c.0
  | inr f ↦ Clear-lookup n s k fds c.1 (rw f at e)
]

pub AllClear-erase :
    (n s : Option ℕ) (k : ℕ) (fds : List (ℕ × Handle))
    → AllClear n s fds
    → AllClear n s (erase_fd k fds)
AllClear-erase n s k [] c = tt
AllClear-erase n s k ((j, h) ∷ fds) c = elim (Bool-cases (k == j)) [
  | inl e ↦ rw e c.1
  | inr e ↦ rw e (c.0, AllClear-erase n s k fds c.1)
]

pub AllLow-le : (m n : ℕ) (fds : List (ℕ × Handle)) → m ≤ n → AllLow m fds → AllLow n fds
AllLow-le m n [] h l = tt
AllLow-le m n ((k, file i) ∷ fds) h l = (omega arith, AllLow-le m n fds h l.1)
AllLow-le m n ((k, folder d) ∷ fds) h l = AllLow-le m n fds h l

pub AllLow-erase : (n k : ℕ) (fds : List (ℕ × Handle)) → AllLow n fds → AllLow n (erase_fd k fds)
AllLow-erase n k [] l = tt
AllLow-erase n k ((j, file i) ∷ fds) l = elim (Bool-cases (k == j)) [
  | inl e ↦ rw e l.1
  | inr e ↦ rw e (l.0, AllLow-erase n k fds l.1)
]
AllLow-erase n k ((j, folder d) ∷ fds) l = elim (Bool-cases (k == j)) [
  | inl e ↦ rw e l
  | inr e ↦ rw e (AllLow-erase n k fds l)
]

-- An inode number that is not below the limit is held by no descriptor.
pub Unheld-of_low : (n : ℕ) (fds : List (ℕ × Handle)) → AllLow n fds → Unheld n fds
Unheld-of_low n [] l = tt
Unheld-of_low n ((k, file i) ∷ fds) l = (omega arith, Unheld-of_low n fds l.1)
Unheld-of_low n ((k, folder d) ∷ fds) l = Unheld-of_low n fds l

abbrev pub ReplyGood :
    {A : Type 0} → FilePath → Option Bytes → Option Bytes → Option Bytes → Fs → Reply A → Type 0
ReplyGood target a b v fs (done x fs') = Settled target a b v fs' × Anchored target fs fs'
ReplyGood target a b v fs (refused e) = Unit

abbrev pub ReplyWith :
    {A : Type 0}
    → (A → Fs → Type 0)
    → FilePath
    → Option Bytes
    → Option Bytes
    → Option Bytes
    → Fs
    → Reply A
    → Type 0
ReplyWith F target a b v fs (done x fs') =
    Settled target a b v fs' × Anchored target fs fs' × F x fs'
ReplyWith F target a b v fs (refused e) = Unit

-- The texts that a call may show are among those that all of the past shows.
pub record Range (c d a b v : Option Bytes) : Type 0 where
  pub older : OneOf c d a
  pub other : OneOf c d b
  pub current : OneOf c d v
  pub within : OneOf a b v

module _ {target : FilePath} {c d a b v : Option Bytes} (r : Range c d a b v) where
  pub Good-of_Settled : (fs : Fs) → Settled target a b v fs → Good target c d fs
  Good-of_Settled fs s =
      (rw s.seen r.current, rw s.late r.current, one_of r.older r.other _ s.early)

  settle-Holds :
      {A : Type 0} (reply : Reply A) (w : World)
      → Holds target c d a b v w
      → ReplyGood target a b v w.fs reply
      → Holds target c d a b v (settle reply w).1
  settle-Holds (done x fs') w h g = record {
    settled = g.0;
    clear = AllClear-Anchored target w.fs fs' w.fds g.1 h.clear;
    held = AllLow-le _ _ w.fds g.1.grows h.held;
    past = (Good-of_Settled fs' g.0, h.past);
    calm = h.calm;
  }
  settle-Holds (refused e) w h g = h

  attempt-Holds :
      {A : Type 0} (f : Fault) (op : Fs → Reply A) (w : World)
      → Holds target c d a b v w
      → ReplyGood target a b v w.fs (op w.fs)
      → Holds target c d a b v (attempt f op w).1
  attempt-Holds pass op w h g = settle-Holds (op w.fs) w h g
  attempt-Holds (short n) op w h g = settle-Holds (op w.fs) w h g
  attempt-Holds (fail e) op w h g = h

  -- One call in one world.
  pub call-Holds :
      {A : Type 0} (op : Fs → Reply A) (w : World)
      → Holds target c d a b v w
      → ReplyGood target a b v w.fs (op w.fs)
      → Holds target c d a b v (call op w).1
  unfolding call
  call-Holds op w h g =
      attempt-Holds (first_fault w.faults) op (record w { faults = later_faults w.faults })
        (record {
          settled = h.settled;
          clear = h.clear;
          held = h.held;
          past = h.past;
          calm = h.calm;
        })
        g

  settle-Ends :
      {A : Type 0} (F : A → Fs → Type 0) (reply : Reply A) (w : World)
      → Holds target c d a b v w
      → ReplyWith F target a b v w.fs reply
      → Ends
          (λ x w'. Holds target c d a b v w' × F x w'.fs)
          (λ e. Holds target c d a b v)
          (settle reply w)
  settle-Ends F (done x fs') w h g = (settle-Holds (done x fs') w h (g.0, g.1), g.2)
  settle-Ends F (refused e) w h g = h

  attempt-Ends :
      {A : Type 0} (F : A → Fs → Type 0) (f : Fault) (op : Fs → Reply A) (w : World)
      → Holds target c d a b v w
      → ReplyWith F target a b v w.fs (op w.fs)
      → Ends
          (λ x w'. Holds target c d a b v w' × F x w'.fs)
          (λ e. Holds target c d a b v)
          (attempt f op w)
  attempt-Ends F pass op w h g = settle-Ends F (op w.fs) w h g
  attempt-Ends F (short n) op w h g = settle-Ends F (op w.fs) w h g
  attempt-Ends F (fail e) op w h g = h

  -- One call whose answer has a property that its caller relies on.
  pub call-Ends :
      {A : Type 0} (F : A → Fs → Type 0) (op : Fs → Reply A) (w : World)
      → Holds target c d a b v w
      → ReplyWith F target a b v w.fs (op w.fs)
      → Ends
          (λ x w'. Holds target c d a b v w' × F x w'.fs)
          (λ e. Holds target c d a b v)
          (call op w)
  unfolding call
  call-Ends F op w h g =
      attempt-Ends F (first_fault w.faults) op (record w { faults = later_faults w.faults })
        (record {
          settled = h.settled;
          clear = h.clear;
          held = h.held;
          past = h.past;
          calm = h.calm;
        })
        g

  pub Keeps-call :
      {A : Type 0} (op : Fs → Reply A)
      → ((fs : Fs) → Settled target a b v fs → ReplyGood target a b v fs (op fs))
      → Keeps (Holds target c d a b v) (call op)
  Keeps-call op g = record { at = λ w h. call-Holds op w h (g w.fs h.settled) }
