-- ===== src/Sys/Files/Creation.antt =====
-- Every call that makes a file, and the work of other processes, keeps the target's invariant.
use safeatomic.Prelude.{
  ℕ, arith, zero, suc, ◌≡◌, refl, ◌≢◌, inl, inr, Option, some, List, [], ◌∷◌, Bytes, Str, All,
  arith, length, drop, Bool-cases, Option-cases,
}
use safeatomic.Prelude.Eq.{nat_eq}
use safeatomic.Sys.Fs.{FilePath, path_eq, Fs, update-ne}
use safeatomic.Sys.World.{World}
use safeatomic.Sys.Exec.{modify}
use safeatomic.Sys.Calls.{
  create_excl, open_excl, create_trunc, open_trunc, others_work, sleep, write_out, write_text,
  read_text,
}
use safeatomic.Sys.Logic.Keeps.{Keeps, Keeps-bind, Keeps-pure, Keeps-if, Keeps-finally, Keeps-raise}
use safeatomic.Sys.Logic.Ends.{Triple-bind, Keeps-of_Triple}
use safeatomic.Sys.Files.{Settled, Apart, Distinct}
use safeatomic.Sys.Files.Steps.{
  with_entry-Settled, with_entry-Anchored, truncate-Settled, Apart-of_Below,
}
use safeatomic.Sys.Files.Frame.{unmoved, Keeps-read_bytes}
use safeatomic.Sys.Files.Holds.{
  AllLow-le, Range, Calm, Holds, ReplyWith, call-Ends, Good-of_Settled, AllClear-Anchored,
}
use safeatomic.Sys.Files.Descriptors.{FreeInode, Triple-new_fd, Keeps-write, Keeps-close}

Apart-Distinct : (o p : Option ℕ) (i : ℕ) → p ≡ some i → Distinct o p → Apart o i
Apart-Distinct o p i e h = rw e at h

module _ {target : FilePath} {c d a b v : Option Bytes} (r : Range c d a b v) where
  create_excl-with :
      (p : FilePath) (fs : Fs)
      → p ≢ target
      → Settled target a b v fs
      → ReplyWith (FreeInode target) target a b v fs (create_excl p fs)
  unfolding create_excl
  create_excl-with p fs h s = elim (Bool-cases (fs.is_dir p.dir)) [
    | inr e ↦ rw e tt
    | inl e ↦ elim (Option-cases (fs.names p)) [
      | inr (i, f) ↦ rw (e, f) tt
      | inl f ↦
          rw (e, f)
            (
              with_entry-Settled s p h,
              with_entry-Anchored s p h,
              (
                rw (update-ne fs.names p (some fs.next) target h)
                    (Apart-of_Below _ _ (s.low target)),
                Apart-of_Below _ _ s.low_saved,
                omega arith,
              ),
            )
    ]
  ]

  pub Keeps-open_excl : (p : FilePath) → p ≢ target → Keeps (Holds target c d a b v) (open_excl p)
  unfolding open_excl
  Keeps-open_excl p h = Keeps-of_Triple _ (
      Triple-bind _ _
        (record {
          at = λ w k.
              call-Ends r (FreeInode target) (create_excl p) w k
                (create_excl-with p w.fs h k.settled);
        })
        (λ i. Triple-new_fd r i))

  create_trunc-with :
      (p : FilePath) (fs : Fs)
      → p ≢ target
      → Settled target a b v fs
      → ReplyWith (FreeInode target) target a b v fs (create_trunc p fs)
  unfolding create_trunc create_excl
  create_trunc-with p fs h s = elim (Bool-cases (fs.is_dir p.dir)) [
    | inr e ↦ rw e tt
    | inl e ↦ elim (Option-cases (fs.names p)) [
      | inl f ↦ rw (e, f) (rw (e, f) at (create_excl-with p fs h s))
      | inr (i, f) ↦
          let apart = Apart-Distinct _ _ i f (s.alone p h) in
          rw (e, f)
            (
              truncate-Settled s i apart,
              unmoved target fs _ refl refl refl,
              (apart, Apart-Distinct _ _ i f (s.alone_saved p h), rw f at (s.low p)),
            )
    ]
  ]

  pub Keeps-open_trunc : (p : FilePath) → p ≢ target → Keeps (Holds target c d a b v) (open_trunc p)
  unfolding open_trunc
  Keeps-open_trunc p h = Keeps-of_Triple _ (
      Triple-bind _ _
        (record {
          at = λ w k.
              call-Ends r (FreeInode target) (create_trunc p) w k
                (create_trunc-with p w.fs h k.settled);
        })
        (λ i. Triple-new_fd r i))

  write_out-Keeps :
      (fuel fd : ℕ) (rest : Bytes) → Keeps (Holds target c d a b v) (write_out fuel fd rest)
  unfolding write_out
  write_out-Keeps zero fd rest = Keeps-pure tt
  write_out-Keeps (suc fuel) fd [] = Keeps-pure tt
  write_out-Keeps (suc fuel) fd (x ∷ rest) =
      Keeps-bind _ _ (Keeps-write r fd (x ∷ rest))
        (λ n. write_out-Keeps fuel fd (drop n (x ∷ rest)))

  pub Keeps-write_text :
      (p : FilePath) (s : Str) → p ≢ target → Keeps (Holds target c d a b v) (write_text p s)
  unfolding write_text
  Keeps-write_text p s h = Keeps-bind _ _ (Keeps-open_trunc p h) (λ fd.
      Keeps-finally _ _ (Keeps-if _ _ _ (write_out-Keeps (length s) fd s) (Keeps-raise _))
        (Keeps-close r fd))

  pub Keeps-read_text : (p : FilePath) → Keeps (Holds target c d a b v) (read_text p)
  unfolding read_text
  Keeps-read_text p = Keeps-bind _ _ (Keeps-read_bytes r p) (λ x. Keeps-pure _)

  others_work-Holds :
      (others : List (Fs → Fs)) (w : World)
      → Holds target c d a b v w
      → All (Calm target) others
      → Holds target c d a b v (others_work others w)
  others_work-Holds [] w h k = h
  others_work-Holds (f ∷ later) w h (calm, k) =
      let (s, an) = calm a b v w.fs h.settled in
      record {
        settled = s;
        clear = AllClear-Anchored target w.fs (f w.fs) w.fds an h.clear;
        held = AllLow-le _ _ w.fds an.grows h.held;
        past = (Good-of_Settled r (f w.fs) s, h.past);
        calm = k;
      }

  pub Keeps-sleep : (delay : ℕ) → Keeps (Holds target c d a b v) (sleep delay)
  unfolding sleep modify
  Keeps-sleep delay = record {
    at = λ w h.
        others_work-Holds w.others _
          (record {
            settled = h.settled;
            clear = h.clear;
            held = h.held;
            past = h.past;
            calm = h.calm;
          })
          h.calm;
  }
