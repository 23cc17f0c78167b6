-- ===== src/Sys/Files.antt =====
-- What one file looks like to readers, before and after a crash, and which changes of the file system
-- leave that alone.
pub mod Steps
pub mod Holds
pub mod Frame
pub mod Outcome
pub mod Descriptors
pub mod Creation
pub mod Reads
use safeatomic.Prelude.{ℕ, ◌<◌, ◌≤◌, ◌≡◌, ◌≢◌, ◌⊎◌, false, Option, none, some, List, [], ◌∷◌, Bytes}
use safeatomic.Sys.Fs.{FilePath, Fs, visible, crashed_early, crashed_late}
use safeatomic.Sys.World.{Handle, file, folder}

abbrev pub OneOf : Option Bytes → Option Bytes → Option Bytes → Type 0
OneOf a b x = (x ≡ a) ⊎ (x ≡ b)

abbrev pub Below : Option ℕ → ℕ → Type 0
Below none n = Unit
Below (some i) n = i < n

-- The name does not lead to the inode.
abbrev pub Apart : Option ℕ → ℕ → Type 0
Apart none j = Unit
Apart (some i) j = i ≢ j

-- Two names do not lead to one inode.
abbrev pub Distinct : Option ℕ → Option ℕ → Type 0
Distinct o none = Unit
Distinct o (some j) = Apart o j

-- Readers of `target` see `v`, also after a crash if its entry has reached the disk; if it has not,
-- they see `a` or `b`. No other name leads to its inode.
pub record Settled (target : FilePath) (a b v : Option Bytes) (fs : Fs) : Type 0 where
  pub seen : visible fs target ≡ v
  pub late : crashed_late fs target ≡ v
  pub early : OneOf a b (crashed_early fs target)
  pub low : (p : FilePath) → Below (fs.names p) fs.next
  pub low_saved : Below (fs.saved_names target) fs.next
  pub alone : (p : FilePath) → p ≢ target → Distinct (fs.names target) (fs.names p)
  pub alone_saved : (p : FilePath) → p ≢ target → Distinct (fs.saved_names target) (fs.names p)

-- The two entries of the target are as they were, or the second is now as the first; and no inode
-- number is free again.
pub record Anchored (target : FilePath) (fs fs' : Fs) : Type 0 where
  pub same : fs'.names target ≡ fs.names target
  pub same_saved :
      (fs'.saved_names target ≡ fs.saved_names target) ⊎ (fs'.saved_names target ≡ fs.names target)
  pub grows : fs.next ≤ fs'.next

abbrev pub Clear : Option ℕ → Option ℕ → Handle → Type 0
Clear n s (file i) = Apart n i × Apart s i
Clear n s (folder d) = Unit

-- No open descriptor leads to an inode with the entries `n` and `s`.
abbrev pub AllClear : Option ℕ → Option ℕ → List (ℕ × Handle) → Type 0
AllClear n s [] = Unit
AllClear n s ((k, h) ∷ fds) = Clear n s h × AllClear n s fds

-- The inodes of the open descriptors have numbers below `n`.
abbrev pub AllLow : ℕ → List (ℕ × Handle) → Type 0
AllLow n [] = Unit
AllLow n ((k, file i) ∷ fds) = (i < n) × AllLow n fds
AllLow n ((k, folder d) ∷ fds) = AllLow n fds

-- No open descriptor leads to the inode.
abbrev pub Unheld : ℕ → List (ℕ × Handle) → Type 0
Unheld i [] = Unit
Unheld i ((k, file j) ∷ fds) = (j ≢ i) × Unheld i fds
Unheld i ((k, folder d) ∷ fds) = Unheld i fds
