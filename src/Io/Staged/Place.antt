-- ===== src/Io/Staged/Place.antt =====
-- Steps 9 and 10, the metadata and the device check, and what a rename makes of the target.
use safeatomic.Prelude.{
  ℕ, ◌≡◌, ◌≢◌, refl, ◌∙◌, sym, ap, inl, inr, Bool, Option, none, some, List, [], ◌∷◌, Bytes, arith,
  Bool-cases,
}
use safeatomic.Prelude.Eq.{◌==◌, nat_eq}
use safeatomic.Sys.Errors.{is_os_error}
use safeatomic.Sys.Fs.{
  Dir, FilePath, Fs, update, update-ne, update_self, path_beq, path_eq, ne-of_path_beq,
}
use safeatomic.Sys.World.{Handle, file, folder, World}
use safeatomic.Sys.Exec.{ok, raised, Result}
use safeatomic.Sys.Calls.{
  Reply, done, refused, call, rename, copystat, copystat_of, stat_device, stat_dir, present,
}
use safeatomic.Sys.Logic.Exists.{exists-Keeps}
use safeatomic.Sys.Logic.Move.{later}
use safeatomic.Sys.Logic.Keeps.{
  Keeps, Keeps-bind, Keeps-if, Keeps-pure, Keeps-raise, Keeps-suppress_os, Keeps-try_except,
}
use safeatomic.Sys.Files.{OneOf, Settled, Apart, Distinct, AllClear, Unheld}
use safeatomic.Sys.Files.Holds.{Range, Holds}
use safeatomic.Sys.Files.Outcome.{Stands, Answered, call-Answered}
use safeatomic.Sys.Files.Frame.{later-Holds, Keeps-copystat, Keeps-stat_device, Keeps-stat_dir}
use safeatomic.Io.Write.{write_copystat, write_device_check, stat_both, differ}
use safeatomic.Io.Staged.{Before, before, IsTmp, Synced}

-- The target has its new text. Until the directory reaches the disk a crash may show the old one.
abbrev pub After : FilePath → Option Bytes → Option Bytes → World → Type 0
After target old new = Holds target old new old new new

abbrev pub after : (old new : Option Bytes) → Range old new old new new
after old new = record { older = inl refl; other = inr refl; current = inr refl; within = inr refl }

Apart-symm : (o : Option ℕ) (i : ℕ) → Apart o i → Distinct (some i) o
Apart-symm none i h = tt
Apart-symm (some j) i h = λ e. h (sym e)

pub AllClear-moved :
    (n s : Option ℕ) (i : ℕ) (fds : List (ℕ × Handle))
    → AllClear n s fds
    → Unheld i fds
    → AllClear (some i) s fds
AllClear-moved n s i [] c u = tt
AllClear-moved n s i ((k, file j) ∷ fds) c u =
    (((λ e. u.0 (sym e)), c.0.1), AllClear-moved n s i fds c.1 u.1)
AllClear-moved n s i ((k, folder d) ∷ fds) c u = (tt, AllClear-moved n s i fds c.1 u)

only : (a x : Option Bytes) → OneOf a a x → x ≡ a
only a x h = ground arith

module _ {target tmp : FilePath} {old : Option Bytes} {i : ℕ} {text : Bytes} {fs : Fs}
    (ne : tmp ≢ target) (s : Settled target old old old fs) (t : IsTmp target tmp i text fs)
    (saved : fs.saved_body i ≡ text) where
  pub rename-After : Settled target old (some text) (some text) (rename tmp target i fs)
  rename-After = record {
    seen = rw (update_self (update fs.names tmp none) target (some i)) (ap some t.filled);
    late = rw (update_self (update fs.names tmp none) target (some i)) (ap some saved);
    early = inl (only old _ s.early);
    low = λ q. elim (Bool-cases (path_beq target q)) [
      | inl e ↦ rw e t.free.2
      | inr e ↦
          rw e (elim (Bool-cases (path_beq tmp q)) [ inl f ↦ rw f tt | inr f ↦ rw f (s.low q) ])
    ];
    low_saved = s.low_saved;
    alone = λ q hq. rw (update_self (update fs.names tmp none) target (some i)) (
        rw (update-ne (update fs.names tmp none) target (some i) q (λ e. hq (sym e)))
          (elim (Bool-cases (path_beq tmp q)) [
            | inl f ↦ rw f tt
            | inr f ↦ rw f (Apart-symm _ i (t.sole q (ne-of_path_beq tmp q f)))
          ]));
    alone_saved = λ q hq.
        rw (update-ne (update fs.names tmp none) target (some i) q (λ e. hq (sym e)))
          (elim (Bool-cases (path_beq tmp q)) [
            | inl f ↦ rw f tt
            | inr f ↦ rw f (s.alone_saved q hq)
          ]);
  }

module _ (target tmp : FilePath) (old : Option Bytes) (i : ℕ) (rest : List (ℕ × Handle))
    (text : Bytes) where
  abbrev Tmp : Fs → Type 0
  Tmp fs = IsTmp target tmp i text fs × (fs.saved_body i ≡ text)

  abbrev pub Closed : World → Type 0
  Closed = Synced target tmp old (some text) i rest text

  abbrev ReplyTmp : {A : Type 0} → Reply A → Type 0
  ReplyTmp (done x fs) = Tmp fs
  ReplyTmp (refused e) = Unit

  Stands-Tmp :
      (w' w : World) (fs : Fs)
      → Tmp fs
      → w.fds ≡ rest
      → Stands w' fs w
      → Tmp w'.fs × (w'.fds ≡ rest)
  Stands-Tmp w' w fs t e s = (rw s.files t, s.fds ∙ e)

  Answered-Tmp :
      {A : Type 0} (reply : Reply A) (w : World) (x : Result A × World)
      → Tmp w.fs
      → w.fds ≡ rest
      → ReplyTmp reply
      → Answered reply w x
      → Tmp x.1.fs × (x.1.fds ≡ rest)
  Answered-Tmp (done y fs) w (ok a, u) t e k h = Stands-Tmp u w fs k e h.1
  Answered-Tmp (done y fs) w (raised x, u) t e k h = Stands-Tmp u w w.fs t e h
  Answered-Tmp (refused y) w (ok a, u) t e k h = absurd h
  Answered-Tmp (refused y) w (raised x, u) t e k h = Stands-Tmp u w w.fs t e h

  call-Closed :
      {A : Type 0} (op : Fs → Reply A)
      → Keeps (Before target old (some text)) (call op)
      → ((fs : Fs) → Tmp fs → ReplyTmp (op fs))
      → Keeps Closed (call op)
  call-Closed op k q = record {
    at = λ w h.
        let t : Tmp w.fs = (h.staged.at, h.saved) in
        let (t', e) =
          Answered-Tmp (op w.fs) w (call op w) t h.staged.opened (q w.fs t) (call-Answered op w) in
        record {
          staged = record { holds = k.at w h.staged.holds; at = t'.0; opened = e };
          saved = t'.1;
        };
  }

  copystat_of-Tmp : (o p : Option ℕ) (fs : Fs) → Tmp fs → ReplyTmp (copystat_of o p fs)
  copystat_of-Tmp (some j) (some k) fs t =
      (record { named = t.0.named; free = t.0.free; sole = t.0.sole; filled = t.0.filled }, t.1)
  copystat_of-Tmp (some j) none fs t = tt
  copystat_of-Tmp none p fs t = tt

  copystat-Closed : Keeps Closed (copystat target tmp)
  unfolding copystat
  copystat-Closed =
      call-Closed _ (unfold copystat in Keeps-copystat (before old (some text)) target tmp)
        (λ fs t. copystat_of-Tmp (fs.names target) (fs.names tmp) fs t)

  stat_device-Closed : (p : FilePath) → Keeps Closed (stat_device p)
  unfolding stat_device
  stat_device-Closed p =
      call-Closed _ (unfold stat_device in Keeps-stat_device (before old (some text)) p)
        (λ fs t. elim (Bool-cases (present p fs)) [ inl e ↦ rw e t | inr e ↦ rw e tt ])

  stat_dir-Closed : (d : Dir) → Keeps Closed (stat_dir d)
  unfolding stat_dir
  stat_dir-Closed d =
      call-Closed _ (unfold stat_dir in Keeps-stat_dir (before old (some text)) d)
        (λ fs t. elim (Bool-cases (fs.is_dir d)) [ inl e ↦ rw e t | inr e ↦ rw e tt ])

  differ-Closed : (o : Option (ℕ × ℕ)) → Keeps Closed (differ tmp target o)
  differ-Closed none = Keeps-pure tt
  differ-Closed (some (m, n)) = Keeps-if (m == n) _ _ (Keeps-pure tt) (Keeps-raise _)

  pub later-Closed : (w : World) → Closed w → Closed (later w)
  later-Closed w h = record {
    staged = record {
      holds = later-Holds w h.staged.holds;
      at = h.staged.at;
      opened = h.staged.opened;
    };
    saved = h.saved;
  }

  pub write_copystat-Closed :
      (preserve_metadata : Bool) → Keeps Closed (write_copystat target tmp preserve_metadata)
  unfolding write_copystat
  write_copystat-Closed preserve_metadata =
      Keeps-if _ _ _
        (Keeps-bind _ _ (exists-Keeps _ later-Closed target)
          (λ found. Keeps-if _ _ _ (Keeps-suppress_os _ copystat-Closed) (Keeps-pure tt)))
        (Keeps-pure tt)

  pub write_device_check-Closed : Keeps Closed (write_device_check tmp target)
  unfolding write_device_check stat_both
  write_device_check-Closed =
      Keeps-bind _ _
        (Keeps-try_except _ _
          (Keeps-bind _ _ (stat_device-Closed tmp)
            (λ m. Keeps-bind _ _ (stat_dir-Closed target.dir) (λ n. Keeps-pure _)))
          (λ e. Keeps-if (is_os_error e) _ _ (Keeps-pure none) (Keeps-raise e)))
        differ-Closed
