-- ===== src/Io/Reader/Closed.antt =====
-- A reader outside its block.
use safeatomic.Prelude.{ℕ, ◌≡◌, refl, ℤ, true, Option, none, some}
use safeatomic.Sys.Errors.{Exception, is_os_error, runtime_error}
use safeatomic.Sys.World.{Handle, Fault, pass, short, fail, World}
use safeatomic.Sys.Fs.{Fs}
use safeatomic.Sys.Exec.{raised, pure, modify, suppress_os}
use safeatomic.Sys.Calls.{
  Reply, done, refused, call, settle, attempt, first_fault, later_faults, close, close_of,
  lookup_fd,
}
use safeatomic.Sys.Logic.Ends.{
  Ends, Triple, Triple-bind, Triple-pure, Triple-raise, Triple-try_except,
}
use safeatomic.Sys.Logic.Returns.{Returns}
use safeatomic.Sys.Method.{throw, with_self}
use safeatomic.Sys.Method.Sat.{EndsWith, Sat-bind, Sat-lift, Sat-assign, Sat-with_self}
use safeatomic.Io.Reader.{
  AtomicReader, FileObject, Reading, new_reader, read, readline, iterate, fileno, exit,
  close_object,
}

-- The call raises `RuntimeError` and touches neither the reader nor the world.
abbrev pub IsRefused : {A : Type 0} → Reading A → AtomicReader → World → Type 0
IsRefused m s w = m s w ≡ (raised runtime_error, s, w)

abbrev Anywhere : World → Type 0
Anywhere w = Unit

abbrev OsError : Exception → World → Type 0
OsError e w = is_os_error e ≡ true

settle-OsError :
    {A : Type 0} (reply : Reply A) (w : World) → Ends (λ a. Anywhere) OsError (settle reply w)
unfolding is_os_error
settle-OsError (done a fs) w = tt
settle-OsError (refused e) w = refl

attempt-OsError :
    {A : Type 0} (f : Fault) (op : Fs → Reply A) (w : World)
    → Ends (λ a. Anywhere) OsError (attempt f op w)
unfolding is_os_error
attempt-OsError pass op w = settle-OsError (op w.fs) w
attempt-OsError (short n) op w = settle-OsError (op w.fs) w
attempt-OsError (fail e) op w = refl

call-OsError : {A : Type 0} (op : Fs → Reply A) → Triple Anywhere (call op) (λ a. Anywhere) OsError
unfolding call
call-OsError op = record {
  at = λ w h.
      attempt-OsError (first_fault w.faults) op (record w { faults = later_faults w.faults });
}

close_of-OsError :
    (fd : ℕ) (o : Option Handle) → Triple Anywhere (close_of fd o) (λ a. Anywhere) OsError
unfolding is_os_error modify
close_of-OsError fd none = Triple-raise _ (λ w h. refl)
close_of-OsError fd (some h) =
    Triple-bind {Q = λ u. Anywhere} _ _ (record { at = λ w h. tt }) (λ u. call-OsError _)

-- A `close` raises nothing but `OSError`, which the reader lets pass.
close_object-Returns : (o : Option FileObject) → Returns Anywhere (close_object o) (λ u. Anywhere)
unfolding suppress_os close
close_object-Returns none = Triple-pure tt (λ w h. tt)
close_object-Returns (some o) =
    Triple-try_except {R = OsError} _ _
      (Triple-bind {Q = λ u. Anywhere} _ _
        (record {
          at = λ w h. (close_of-OsError o.descriptor (lookup_fd o.descriptor w.fds)).at w h;
        })
        (λ u. Triple-pure tt (λ w h. tt)))
      (λ e. record { at = λ w h. rw h (unfold pure in tt) })

-- None of the reader's operations can be used.
abbrev pub IsClosed : AtomicReader → World → Type 0
IsClosed s w =
    ((n : ℤ) → IsRefused (read n) s w)
    × IsRefused readline s w
    × ((fuel : ℕ) → IsRefused (iterate fuel) s w)
    × IsRefused fileno s w

new_reader-IsClosed : (w : World) → IsClosed new_reader w
unfolding read readline iterate fileno with_self throw
new_reader-IsClosed w = (λ n. refl, refl, λ fuel. refl, refl)

-- `__exit__` returns whatever the reader's state and whatever calls fail, also the `close` of its
-- file. From then on, until the reader is entered again, `read(n)` for every n, `readline`,
-- iteration and `fileno` raise `RuntimeError` and change neither the reader nor anything outside it.
pub exit-IsClosed :
    (s : AtomicReader) (w : World) → EndsWith (λ u. IsClosed) (λ e s' w'. ⊥) (exit s w)
unfolding exit
exit-IsClosed s w =
    (Sat-bind {P = λ s w. Unit} {Q = λ u s w. Unit} _ _
        (Sat-with_self _ (λ s w h. (Sat-lift _ (λ s'. close_object-Returns s.fobj)).at s w h))
        (λ u. Sat-assign _ (λ s w h. new_reader-IsClosed w))).at
      s w tt
