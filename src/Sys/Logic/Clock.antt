-- ===== src/Sys/Logic/Clock.antt =====
-- No call but `time.sleep` takes time.
use safeatomic.Prelude.{ℕ, ◌≡◌, refl, ◌∙◌, Option, none, some, Bytes}
use safeatomic.Sys.Fs.{FilePath, Fs}
use safeatomic.Sys.World.{Fault, pass, short, fail, Handle, file, folder, World}
use safeatomic.Sys.Exec.{modify}
use safeatomic.Sys.Calls.{
  Reply, done, refused, first_fault, later_faults, settle, attempt, call, lookup_fd, new_fd,
  open_excl, write, write_to, close, close_of, unlink, remove_entry, now,
}
use safeatomic.Sys.Logic.Keeps.{Keeps, Keeps-bind, Keeps-gets, Keeps-raise}

-- It is this time.
abbrev pub Clock : ℕ → World → Type 0
Clock t w = w.clock ≡ t

settle-clock : {A : Type 0} (reply : Reply A) (w : World) → (settle reply w).1.clock ≡ w.clock
settle-clock (done a fs) w = refl
settle-clock (refused e) w = refl

attempt-clock :
    {A : Type 0} (f : Fault) (op : Fs → Reply A) (w : World) → (attempt f op w).1.clock ≡ w.clock
attempt-clock pass op w = settle-clock (op w.fs) w
attempt-clock (short n) op w = settle-clock (op w.fs) w
attempt-clock (fail e) op w = refl

module _ (t : ℕ) where
  pub call-Clock : {A : Type 0} (op : Fs → Reply A) → Keeps (Clock t) (call op)
  unfolding call
  call-Clock op = record {
    at = λ w h.
        attempt-clock (first_fault w.faults) op (record w { faults = later_faults w.faults }) ∙ h;
  }

  pub open_excl-Clock : (p : FilePath) → Keeps (Clock t) (open_excl p)
  unfolding open_excl new_fd
  open_excl-Clock p = Keeps-bind _ _ (call-Clock _) (λ i. record { at = λ w h. h })

  write_to-Clock : (o : Option Handle) (text : Bytes) → Keeps (Clock t) (write_to o text)
  write_to-Clock (some (file i)) text = record { at = λ w h. (call-Clock _).at w h }
  write_to-Clock (some (folder d)) text = record { at = λ w h. h }
  write_to-Clock none text = record { at = λ w h. h }

  pub write-Clock : (fd : ℕ) (text : Bytes) → Keeps (Clock t) (write fd text)
  unfolding write
  write-Clock fd text = record { at = λ w h. (write_to-Clock (lookup_fd fd w.fds) text).at w h }

  close_of-Clock : (fd : ℕ) (o : Option Handle) → Keeps (Clock t) (close_of fd o)
  unfolding modify
  close_of-Clock fd none = Keeps-raise _
  close_of-Clock fd (some h) = Keeps-bind _ _ (record { at = λ w h. h }) (λ u. call-Clock _)

  pub close-Clock : (fd : ℕ) → Keeps (Clock t) (close fd)
  unfolding close
  close-Clock fd = record { at = λ w h. (close_of-Clock fd (lookup_fd fd w.fds)).at w h }

  pub unlink-Clock : (p : FilePath) → Keeps (Clock t) (unlink p)
  unfolding unlink
  unlink-Clock p = call-Clock (remove_entry p)

  pub now-Clock : Keeps (Clock t) now
  unfolding now
  now-Clock = Keeps-gets _
