-- ===== src/Sys/Files/Frame.antt =====
-- Every call about other files keeps the target's invariant.
use safeatomic.Prelude.{
  arith, ℕ, ◌≡◌, refl, ◌≢◌, ◌∙◌, inl, inr, Option, none, some, Bytes, Bool-cases, Option-cases,
  if◌then◌else◌,
}
use safeatomic.Prelude.Eq.{◌==◌, nat_eq}
use safeatomic.Sys.Errors.{enoent, exdev}
use safeatomic.Sys.Fs.{Dir, FilePath, path_eq, Fs, update-ne, update}
use safeatomic.Sys.Calls.{
  done, refused, remove_entry, unlink, replace_entry, replace, exists, stat_device, stat_mode,
  stat_dir, read_bytes, copystat_of, copystat, now, rename, present,
}
use safeatomic.Sys.Logic.Exists.{exists-Keeps}
use safeatomic.Sys.Logic.Keeps.{Keeps, Keeps-gets}
use safeatomic.Sys.Logic.Move.{later}
use safeatomic.Sys.World.{World}
use safeatomic.Sys.Files.{Settled, Anchored}
use safeatomic.Sys.Files.Steps.{copy_attributes-Settled, unlink-Settled, rename-Settled}
use safeatomic.Sys.Files.Holds.{Range, Holds, ReplyGood, Keeps-call}

pub unmoved :
    (target : FilePath) (fs fs' : Fs)
    → fs'.names target ≡ fs.names target
    → fs'.saved_names target ≡ fs.saved_names target
    → fs'.next ≡ fs.next
    → Anchored target fs fs'
unmoved target fs fs' e f n = record { same = e; same_saved = inl f; grows = omega arith }

-- No fault touches it.
pub later-Holds :
    {target : FilePath} {c d a b v : Option Bytes} (w : World)
    → Holds target c d a b v w
    → Holds target c d a b v (later w)
later-Holds w h = record {
  settled = h.settled;
  clear = h.clear;
  held = h.held;
  past = h.past;
  calm = h.calm;
}

module _ {target : FilePath} {c d a b v : Option Bytes} (r : Range c d a b v) where
  pub Keeps-exists : (p : FilePath) → Keeps (Holds target c d a b v) (exists p)
  Keeps-exists p = exists-Keeps _ later-Holds p

  pub Keeps-now : Keeps (Holds target c d a b v) now
  unfolding now
  Keeps-now = Keeps-gets _

  pub Keeps-stat_device : (p : FilePath) → Keeps (Holds target c d a b v) (stat_device p)
  unfolding stat_device
  Keeps-stat_device p = Keeps-call r _ λ fs s. elim (Bool-cases (present p fs)) [
    | inl e ↦ rw e (s, unmoved target fs fs refl refl refl)
    | inr e ↦ rw e tt
  ]

  pub Keeps-stat_dir : (p : Dir) → Keeps (Holds target c d a b v) (stat_dir p)
  unfolding stat_dir
  Keeps-stat_dir p = Keeps-call r _ λ fs s. elim (Bool-cases (fs.is_dir p)) [
    | inl e ↦ rw e (s, unmoved target fs fs refl refl refl)
    | inr e ↦ rw e tt
  ]

  pub Keeps-stat_mode : (p : FilePath) → Keeps (Holds target c d a b v) (stat_mode p)
  unfolding stat_mode
  Keeps-stat_mode p = Keeps-call r _ λ fs s. elim (Option-cases (fs.names p)) [
    | inl e ↦ rw e tt
    | inr (i, e) ↦ rw e (s, unmoved target fs fs refl refl refl)
  ]

  pub Keeps-read_bytes : (p : FilePath) → Keeps (Holds target c d a b v) (read_bytes p)
  unfolding read_bytes
  Keeps-read_bytes p = Keeps-call r _ λ fs s. elim (Option-cases (fs.names p)) [
    | inl e ↦ rw e tt
    | inr (i, e) ↦ rw e (s, unmoved target fs fs refl refl refl)
  ]

  copystat_of-good :
      (o p : Option ℕ) (fs : Fs)
      → Settled target a b v fs
      → ReplyGood target a b v fs (copystat_of o p fs)
  copystat_of-good (some i) (some j) fs s =
      (copy_attributes-Settled s i j, unmoved target fs _ refl refl refl)
  copystat_of-good (some i) none fs s = tt
  copystat_of-good none p fs s = tt

  pub Keeps-copystat : (p q : FilePath) → Keeps (Holds target c d a b v) (copystat p q)
  unfolding copystat
  Keeps-copystat p q = Keeps-call r _ λ fs s. copystat_of-good (fs.names p) (fs.names q) fs s

  pub Keeps-unlink : (p : FilePath) → p ≢ target → Keeps (Holds target c d a b v) (unlink p)
  unfolding unlink
  Keeps-unlink p h = Keeps-call r _ λ fs s. elim (Option-cases (fs.names p)) [
    | inl e ↦ rw (e, remove_entry) tt
    | inr (i, e) ↦
        rw (e, remove_entry)
          (unlink-Settled s p h, unmoved target fs _ (update-ne fs.names p none target h) refl refl)
  ]

  pub Keeps-replace :
      (src dst : FilePath)
      → src ≢ target
      → dst ≢ target
      → Keeps (Holds target c d a b v) (replace src dst)
  unfolding replace
  Keeps-replace src dst hs hd = Keeps-call r _ λ fs s. elim (Option-cases (fs.names src)) [
    | inl e ↦ rw (e, replace_entry) tt
    | inr (i, e) ↦ rw (e, replace_entry) (placed fs s i e)
  ]
    where
      moved : (fs : Fs) (i : ℕ) → Anchored target fs (rename src dst i fs)
      moved fs i =
          unmoved target fs _
            (update-ne (update fs.names src none) dst (some i) target hd
              ∙ update-ne fs.names src none target hs)
            refl refl

      placed :
          (fs : Fs) (s : Settled target a b v fs) (i : ℕ)
          → fs.names src ≡ some i
          → ReplyGood target a b v fs (
              if fs.is_dir dst.dir
              then if fs.device src.dir == fs.device dst.dir
                then done tt (rename src dst i fs)
                else refused exdev
              else refused enoent)
      placed fs s i e = elim (Bool-cases (fs.is_dir dst.dir)) [
        | inr g ↦ rw g tt
        | inl g ↦ elim (Bool-cases (fs.device src.dir == fs.device dst.dir)) [
          | inr f ↦ rw (g, f) tt
          | inl f ↦ rw (g, f) (rename-Settled s src dst i hs hd e, moved fs i)
        ]
      ]
