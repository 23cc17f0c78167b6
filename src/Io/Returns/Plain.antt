-- ===== src/Io/Returns/Plain.antt =====
-- A write without a lock, a gate and a sidecar, where no call fails.
use safeatomic.Prelude.{
  ℕ, ◌+◌, ◌≡◌, ◌⊎◌, refl, Bool, true, false, Option, none, some, [], Bytes, Str,
}
use safeatomic.Prelude.Eq.{nat_eq, list_eq}
use safeatomic.Constants.{best_effort, unlocked}
use safeatomic.Sys.Fs.{FilePath}
use safeatomic.Sys.World.{World}
use safeatomic.Sys.Exec.{Result, ok, raised, ◌>>=◌}
use safeatomic.Sys.Logic.Ends.{
  Ends, Ends-weaken, Triple-bind, Triple-pure, Triple-on_error, Triple-finally,
}
use safeatomic.Host.{Host}
use safeatomic.Paths.{tmp_path_for, tmp_name}
use safeatomic.Io.Safety.{Required, check_safety}
use safeatomic.Io.Write.{Options, write_and_place, write_core}
use safeatomic.Sys.Logic.Returns.{Returns}
use safeatomic.Io.Returns.{Calmly, Absent, open_excl-Holding}
use safeatomic.Io.Returns.Place.{fill_tmp-Far, place_tmp-Calmly}
use safeatomic.Io.Returns.Sync.{fsync_dir-Calmly}
use safeatomic.Ordinary.{IsOrdinary}
use safeatomic.Io.Promises.{Ready, Shows, write_core-Shows}

module _ (target : FilePath) (name : Str) where
  write_and_place-Calmly :
      (host : Host) (chunk_size : ℕ) (text : Bytes) (preserve_metadata : Bool) (w : World)
      → Absent target name w
      → name ≡ tmp_name host w.drawn
      → Ends
          (λ u. Calmly target name)
          (λ e w'. ⊥)
          (write_and_place host chunk_size target text preserve_metadata w)
  unfolding write_and_place tmp_path_for ◌>>=◌
  write_and_place-Calmly host chunk_size text preserve_metadata w h e = rw (← e) (
      (Triple-bind _ _
          (Triple-on_error {R = λ e w. ⊥} _ _ (open_excl-Holding target name)
            (λ e. record { at = λ w h. absurd h }))
          (λ fd.
            Triple-bind _ _ (fill_tmp-Far target name host chunk_size fd text)
              (λ u. place_tmp-Calmly target name host chunk_size preserve_metadata))).at
        (record w { drawn = w.drawn + 1 })
        (record { quiet = h.0.quiet; present_dir = h.0.present_dir }, h.1))

  abbrev Prepared : Host → World → Type 0
  Prepared host w = Absent target name w × (name ≡ tmp_name host w.drawn)

  write_core-Calmly :
      (host : Host) (chunk_size : ℕ) (text : Bytes) (options : Options) (required : Required)
      → options.concurrency ≡ unlocked
      → options.safety ≡ best_effort
      → options.write_checksum ≡ false
      → Returns
          (Prepared host)
          (write_core host chunk_size target text options required)
          (λ u. Calmly target name)
  unfolding write_core check_safety
  write_core-Calmly host chunk_size text options required c s k =
      rw (c, s, k)
        (Triple-bind {Q = λ a. Prepared host} _ _ (Triple-pure tt (λ w h. h)) (λ a.
          Triple-bind {Q = λ a. Prepared host} _ _ (Triple-pure tt (λ w h. h)) (λ b.
            Triple-bind {Q = λ a. Calmly target name} _ _
              (Triple-finally {R = λ e w. ⊥} _ _
                (record {
                  at = λ w h.
                      write_and_place-Calmly host chunk_size text options.preserve_metadata w h.0
                        h.1;
                })
                (λ u. Triple-pure tt (λ w h. h)) (λ e. record { at = λ w h. absurd h }))
              (λ u.
                Triple-bind _ _ (fsync_dir-Calmly target name best_effort)
                  (λ x. Triple-pure tt (λ w h. h))))))

both-Ends :
    (target : FilePath) (name : Str) (old : Option Bytes) (text : Bytes)
    (x : Result (Unit {0}) × World)
    → Ends (λ u. Calmly target name) (λ e w'. ⊥) x
    → Ends
        (λ u. Shows target (some text))
        (λ e w'. Shows target old w' ⊎ Shows target (some text) w')
        x
    → Ends (λ u w'. Shows target (some text) w' × Calmly target name w') (λ e w'. ⊥) x
both-Ends target name old text (ok u, w) h k = (k, h)
both-Ends target name old text (raised e, w) h k = h

-- The next temporary name is free, no call fails, and the write is without a lock, a safety gate and
-- a sidecar.
pub record Plain (host : Host) (target : FilePath) (options : Options) (w : World) : Type 0 where
  pub quiet : w.faults ≡ []
  pub present_dir : w.fs.is_dir target.dir ≡ true
  pub free : w.fs.names (record { dir = target.dir; name = tmp_name host w.drawn }) ≡ none
  pub no_lock : options.concurrency ≡ unlocked
  pub no_gate : options.safety ≡ best_effort
  pub no_sidecar : options.write_checksum ≡ false

-- The text is there, and the calls to come are answered as well.
pub write_core_settles :
    {target : FilePath} (o : IsOrdinary target) (old : Option Bytes) (host : Host) (chunk_size : ℕ)
    (text : Bytes) (options : Options) (required : Required) (w : World)
    → Ready target old w
    → Plain host target options w
    → Ends
        (λ u w'. Shows target (some text) w' × Calmly target (tmp_name host w.drawn) w')
        (λ e w'. ⊥)
        (write_core host chunk_size target text options required w)
write_core_settles {target} o old host chunk_size text options required w r p =
    both-Ends target (tmp_name host w.drawn) old text _
      ((write_core-Calmly target (tmp_name host w.drawn) host chunk_size text options required
          p.no_lock p.no_gate p.no_sidecar).at
        w ((record { quiet = p.quiet; present_dir = p.present_dir }, p.free), refl))
      (write_core-Shows o old host chunk_size text options required w r)

-- Let the target be an ordinary file name and at rest (`Ready`), its directory be there, the next
-- temporary name be free, no call fail, and the write be without a lock, a safety gate and a
-- sidecar. Then `write_core` returns, and a reader sees all of the new text, also after a crash
-- if the entry has reached the disk.
pub write_core_returns :
    {target : FilePath} (o : IsOrdinary target) (old : Option Bytes) (host : Host) (chunk_size : ℕ)
    (text : Bytes) (options : Options) (required : Required) (w : World)
    → Ready target old w
    → Plain host target options w
    → Ends
        (λ u. Shows target (some text))
        (λ e w'. ⊥)
        (write_core host chunk_size target text options required w)
write_core_returns {target} o old host chunk_size text options required w r p =
    Ends-weaken (λ u w'. Shows target (some text) w' × Calmly target (tmp_name host w.drawn) w')
      (λ u. Shows target (some text)) (λ e w'. ⊥) (λ e w'. ⊥) _
      (write_core_settles o old host chunk_size text options required w r p) (λ u w' h. h.0)
      (λ e w' h. h)
