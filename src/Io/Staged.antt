-- ===== src/Io/Staged.antt =====
-- The temporary file on its way: made, filled, synced and closed, with the target as it was.
pub mod Fill
pub mod Sync
pub mod Place
pub mod Replace
use safeatomic.Prelude.{
  sym, ap, ℕ, zero, suc, ◌+◌, ◌<◌, ◌≡◌, ◌≢◌, refl, inl, inr, ◌∙◌, Option, none, some, List, [], ◌∷◌,
  ◌++◌, Bytes, Bool-cases, Option-cases, arith,
}
use safeatomic.Sys.Errors.{Exception}
use safeatomic.Sys.Fs.{FilePath, Fs, update-ne, update_self, path_beq, path_eq, update}
use safeatomic.Sys.World.{Handle, file, folder, World}
use safeatomic.Sys.Exec.{Exec, ok, raised, Result, ◌>>=◌, proceed}
use safeatomic.Sys.Calls.{call, create_excl, open_excl, new_fd, with_entry, Reply, done, refused}
use safeatomic.Sys.Logic.Ends.{Triple, Triple-bind, Ends, Ends-both, Ends-bind}
use safeatomic.Sys.Files.{Apart, Settled, Anchored, AllLow, Unheld}
use safeatomic.Sys.Files.Steps.{with_entry-Anchored, Apart-of_Below, with_entry-Settled}
use safeatomic.Sys.Files.Holds.{Range, Holds, ReplyWith, call-Ends, Unheld-of_low}
use safeatomic.Sys.Files.Outcome.{call-fds}
use safeatomic.Sys.Files.Descriptors.{FreeInode, new_fd-Holds}

-- Nothing has happened to the target yet.
abbrev pub Before : FilePath → Option Bytes → Option Bytes → World → Type 0
Before target old new = Holds target old new old old old

abbrev pub before : (old new : Option Bytes) → Range old new old old old
before old new = record {
  older = inl refl;
  other = inl refl;
  current = inl refl;
  within = inl refl;
}

-- The inode `i` holds `text`, and `tmp` is the one name that leads to it.
pub record IsTmp (target tmp : FilePath) (i : ℕ) (text : Bytes) (fs : Fs) : Type 0 where
  pub named : fs.names tmp ≡ some i
  pub free : FreeInode target i fs
  pub sole : (p : FilePath) → p ≢ tmp → Apart (fs.names p) i
  pub filled : fs.body i ≡ text

pub record Staged (target tmp : FilePath) (old new : Option Bytes) (i : ℕ) (fds : List (ℕ × Handle))
    (text : Bytes) (w : World) : Type 0 where
  pub holds : Before target old new w
  pub at : IsTmp target tmp i text w.fs
  pub opened : w.fds ≡ fds

-- The text has reached the disk as well.
pub record Synced (target tmp : FilePath) (old new : Option Bytes) (i : ℕ) (fds : List (ℕ × Handle))
    (text : Bytes) (w : World) : Type 0 where
  pub staged : Staged target tmp old new i fds text w
  pub saved : w.fs.saved_body i ≡ text

-- Just after the exclusive creation, with `fd` open on the new inode.
pub record Fresh (target tmp : FilePath) (old new : Option Bytes) (fd : ℕ) (w : World)
    : Type 0 where
  pub inode : ℕ
  pub rest : List (ℕ × Handle)
  pub unheld : Unheld inode rest
  pub staged : Staged target tmp old new inode ((fd, file inode) ∷ rest) [] w

module _ {target tmp : FilePath} (ne : tmp ≢ target) (old new : Option Bytes) where
  abbrev New : List (ℕ × Handle) → ℕ → Fs → Type 0
  New fds i fs = IsTmp target tmp i [] fs × Unheld i fds

  new_entry :
      (w : World)
      → Before target old new w
      → w.fs.names tmp ≡ none
      → IsTmp target tmp w.fs.next [] (with_entry tmp w.fs)
  new_entry w h f = record {
    named = update_self w.fs.names tmp (some w.fs.next);
    free = (
      rw (update-ne w.fs.names tmp (some w.fs.next) target ne)
          (Apart-of_Below _ _ (h.settled.low target)),
      Apart-of_Below _ _ h.settled.low_saved,
      omega arith,
    );
    sole = λ p hp.
        rw (update-ne w.fs.names tmp (some w.fs.next) p (λ e. hp (sym e)))
          (Apart-of_Below _ _ (h.settled.low p));
    filled = ground arith;
  }

  create_excl-New :
      (w : World)
      → Before target old new w
      → ReplyWith (New w.fds) target old old old w.fs (create_excl tmp w.fs)
  unfolding create_excl
  create_excl-New w h = elim (Bool-cases (w.fs.is_dir tmp.dir)) [
    | inr e ↦ rw e tt
    | inl e ↦ elim (Option-cases (w.fs.names tmp)) [
      | inr (i, f) ↦ rw (e, f) tt
      | inl f ↦
          rw (e, f)
            (
              with_entry-Settled h.settled tmp ne,
              with_entry-Anchored h.settled tmp ne,
              (new_entry w h f, Unheld-of_low _ w.fds h.held),
            )
    ]
  ]

  open-Fresh :
      (i : ℕ) (rest : List (ℕ × Handle)) (w : World)
      → Before target old new w
      → IsTmp target tmp i [] w.fs
      → Unheld i rest
      → w.fds ≡ rest
      → Ends
          (λ fd w'. Fresh target tmp old new fd w')
          (λ e. Before target old new)
          (new_fd (file i) w)
  unfolding new_fd
  open-Fresh i rest w h t u e = record {
    inode = i;
    rest = rest;
    unheld = u;
    staged = record {
      holds =
          unfold new_fd in
          new_fd-Holds (before old new) (file i) w h (t.free.0, t.free.1) (t.free.2, tt);
      at = t;
      opened = ap (λ (l : List (ℕ × Handle)). (w.next_fd, file i) ∷ l) e;
    };
  }

  -- Opening the temporary file makes a new inode, or changes nothing that matters to the target.
  pub open_excl-Fresh :
      Triple
        (Before target old new)
        (open_excl tmp)
        (Fresh target tmp old new)
        (λ e. Before target old new)
  unfolding open_excl
  open_excl-Fresh = record {
    at = λ w h.
        Ends-bind (λ i w'. (w'.fds ≡ w.fds) × (Before target old new w' × New w.fds i w'.fs))
          (λ e w'. (w'.fds ≡ w.fds) × Before target old new w') (Fresh target tmp old new)
          (λ e. Before target old new) (call (create_excl tmp)) (λ i. new_fd (file i)) w
          (Ends-both (λ w'. w'.fds ≡ w.fds) (λ i w'. Before target old new w' × New w.fds i w'.fs)
            (λ e. Before target old new) (call (create_excl tmp) w) (call-fds _ w)
            (call-Ends (before old new) (New w.fds) (create_excl tmp) w h (create_excl-New w h)))
          (λ i w' k. open-Fresh i w.fds w' k.1.0 k.1.1.0 k.1.1.1 k.0) (λ e w' k. k.1);
  }
