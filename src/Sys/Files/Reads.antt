-- ===== src/Sys/Files/Reads.antt =====
-- Calls that only read: the file system stays, and the answer is what it holds.
use safeatomic.Prelude.{ℕ, ◌≡◌, Option, none, some, Bytes}
use mathlib.Core.Option.{some-injective}
use safeatomic.Sys.Errors.{enoent}
use safeatomic.Sys.Fs.{FilePath, Fs, visible, text_at}
use safeatomic.Sys.World.{World}
use safeatomic.Sys.Calls.{Reply, done, refused, read_bytes}
use safeatomic.Sys.Logic.Ends.{Triple}
use safeatomic.Sys.Logic.Move.{ReplyTo, Triple-call}

-- The file system is this one.
abbrev pub At : Fs → World → Type 0
At fs w = w.fs ≡ fs

module _ (fs : Fs) (p : FilePath) where
  abbrev Read : Bytes → Bytes → World → Type 0
  Read raw x w = (x ≡ raw) × At fs w

  reply_of :
      (fs' : Fs) (o : Option ℕ) (raw : Bytes) (w : World)
      → text_at fs'.body o ≡ some raw
      → fs' ≡ fs
      → ReplyTo
          (Read raw)
          w
          (elim o as (λ x. Reply Bytes) [ none ↦ refused enoent | some i ↦ done (fs'.body i) fs' ])
  reply_of fs' none raw w v h = tt
  reply_of fs' (some i) raw w v h = (some-injective _ _ v, h)

  -- A read of a file gives its text or raises.
  pub read_bytes-Read :
      (raw : Bytes)
      → visible fs p ≡ some raw
      → Triple (At fs) (read_bytes p) (Read raw) (λ e. At fs)
  unfolding read_bytes
  read_bytes-Read raw v =
      Triple-call (At fs) (Read raw) _ (λ w h. h)
        (λ w h. reply_of w.fs (w.fs.names p) raw w (rw h v) h)
