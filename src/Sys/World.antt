-- ===== src/Sys/World.antt =====
-- All that an operation can read and change.
use safeatomic.Prelude.{ℕ, Option, List}
use safeatomic.Environment.{Environment}
use safeatomic.Sys.Fs.{Dir, Fs}
use safeatomic.Sys.Errors.{Errno}

-- What the kernel does to one call: it lets it pass, cuts a write short, or fails it.
pub data Fault : Type 0 where
  pass : Fault
  short : ℕ → Fault
  fail : Errno → Fault

pub data Handle : Type 0 where
  file : ℕ → Handle
  folder : Dir → Handle

-- `faults` has an entry for each call to come (when it is used up, every call passes); `trace` holds
-- each file system that a call left, the newest first; `others` is what other processes do, one
-- entry for each `time.sleep`; `drawn` counts the random names, `warned` the warnings.
pub record World : Type 0 where
  pub fs : Fs
  pub trace : List Fs
  pub faults : List Fault
  pub others : List (Fs → Fs)
  pub fds : List (ℕ × Handle)
  pub next_fd : ℕ
  pub clock : ℕ
  pub drawn : ℕ
  pub warned : ℕ
  pub cache : ℕ → Option Environment
