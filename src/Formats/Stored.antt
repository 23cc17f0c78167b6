-- ===== src/Formats/Stored.antt =====
-- What one write has stored, a read gives back.
use safeatomic.Prelude.{ℕ, ◌≡◌, refl, false, Option, none, some, [], Str, Bytes}
use mathlib.Core.Option.{some-injective}
use safeatomic.Prelude.Eq.{nat_eq, list_eq}
use safeatomic.Constants.{best_effort}
use safeatomic.Sys.Errors.{enoent}
use safeatomic.Sys.Fs.{FilePath, Fs, path_eq, visible, text_at}
use safeatomic.Sys.World.{World}
use safeatomic.Sys.Exec.{Exec, Result, ok, pure, of_result, ◌>>=◌}
use safeatomic.Sys.Calls.{Reply, done, refused, read_bytes}
use safeatomic.Sys.Logic.Ends.{Ends, Ends-bind, Ends-weaken, Triple-bind, Triple-pure}
use safeatomic.Sys.Logic.Returns.{Returns, answered_call}
use safeatomic.Host.{Host}
use safeatomic.Config.{Context, resolve_config}
use safeatomic.Ordinary.{IsOrdinary}
use safeatomic.Paths.{tmp_name}
use safeatomic.Io.Safety.{Required, required_write, check_safety}
use safeatomic.Io.Write.{Options, with_resolved, write_atomic}
use safeatomic.Io.Read.{read_core, sidecar_hash_of, compare_if, read_atomic}
use safeatomic.Io.Promises.{Ready, Shows}
use safeatomic.Io.Returns.{Calmly}
use safeatomic.Io.Returns.Plain.{Plain, write_core_settles}

-- No call fails from here on, and the target shows the bytes.
pub record Stored (target : FilePath) (raw : Bytes) (w : World) : Type 0 where
  pub quiet : w.faults ≡ []
  pub seen : visible w.fs target ≡ some raw

abbrev Read : FilePath → Bytes → Bytes → World → Type 0
Read target raw x w = (x ≡ raw) × Stored target raw w

bytes_at :
    (fs : Fs) (raw : Bytes) (o : Option ℕ)
    → text_at fs.body o ≡ some raw
    → (x : Bytes) × (elim o as (λ x. Reply Bytes) [
      | none ↦ refused enoent
      | some i ↦ done (fs.body i) fs
    ]
        ≡ done x fs)
      × (x ≡ raw)
bytes_at fs raw none v = absurd (cc v)
bytes_at fs raw (some i) v = (fs.body i, refl, some-injective _ _ v)

read_bytes-Stored :
    (target : FilePath) (raw : Bytes)
    → Returns (Stored target raw) (read_bytes target) (Read target raw)
unfolding read_bytes
read_bytes-Stored target raw =
    answered_call _ _ _ (λ w h. h.quiet)
      (λ w h.
        let (x, e, f) = bytes_at w.fs raw (w.fs.names target) h.seen in
        (x, w.fs, e, (f, record { quiet = refl; seen = h.seen })))

module _ {target : FilePath} (ordinary : IsOrdinary target) (old : Option Bytes) (host : Host)
    (chunk_size : ℕ) (vars explicit : Context) (o : Options) (text : Str) (raw : Bytes) (w : World)
    (encoded : host.encode (resolve_config vars explicit).encoding text ≡ some raw)
    (decoded : host.decode (resolve_config vars explicit).encoding raw ≡ some text)
    (ready : Ready target old w) (plain : Plain host target o w) where
  write_atomic-Stored :
      Ends
        (λ u. Stored target raw)
        (λ e w'. ⊥)
        (write_atomic host chunk_size vars explicit o target text w)
  unfolding write_atomic
  write_atomic-Stored =
      rw (encoded, write_atomic)
        (Ends-weaken (λ u w'. Shows target (some raw) w' × Calmly target (tmp_name host w.drawn) w')
          (λ u. Stored target raw) (λ e w'. ⊥) (λ e w'. ⊥) _
          (write_core_settles ordinary old host chunk_size raw
            (with_resolved o (resolve_config vars explicit))
            (required_write o.concurrency o.write_checksum) w ready
            (record {
              quiet = plain.quiet;
              present_dir = plain.present_dir;
              free = plain.free;
              no_lock = plain.no_lock;
              no_gate = plain.no_gate;
              no_sidecar = plain.no_sidecar;
            }))
          (λ u w' h. record { quiet = h.1.quiet; seen = h.0.0 }) (λ e w' h. h))

  read_core-Stored :
      (algo : Str) (required : Required)
      → Returns
          (Stored target raw)
          (read_core host target false algo best_effort required)
          (λ x w'. x ≡ raw)
  unfolding read_core check_safety sidecar_hash_of compare_if
  read_core-Stored algo required =
      Triple-bind {Q = λ u. Stored target raw} _ _ (Triple-pure tt (λ w h. h)) (λ u.
        Triple-bind {Q = λ x w'. (x ≡ none) × Stored target raw w'} _ _
          (Triple-pure none (λ w h. (refl, h)))
          (λ sidecar_hash. record {
            at = λ w h. rw h.0 (
                (Triple-bind _ _ (read_bytes-Stored target raw) (λ x.
                    Triple-bind {Q = λ u w'. x ≡ raw} _ _ (Triple-pure tt (λ w h. h.0))
                      (λ u. Triple-pure x (λ w h. h)))).at
                  w h.1);
          }))

  read_atomic-Stored :
      Returns
        (Stored target raw)
        (read_atomic host vars explicit target false best_effort)
        (λ s w'. s ≡ text)
  unfolding read_atomic pure resolve_config
  read_atomic-Stored =
      Triple-bind _ _ (read_core-Stored _ _) (λ x. record { at = λ w h. rw h (rw decoded refl) })

  module _ {Object : Type 0} (dump : Exec (Unit {0})) (load : Exec Object) (obj : Object) where
    -- A dump that is a write of `text` and a load that parses what it reads.
    pub stored_back :
        (loads : Str → Result Object)
        → dump w ≡ write_atomic host chunk_size vars explicit o target text w
        → load
          ≡ (read_atomic host vars explicit target false best_effort >>= λ s. of_result (loads s))
        → loads text ≡ ok obj
        → Ends (λ x w'. x ≡ obj) (λ e w'. ⊥) ((dump >>= λ u. load) w)
    stored_back loads d l parsed =
        Ends-bind (λ u. Stored target raw) (λ e w'. ⊥) (λ x w'. x ≡ obj) (λ e w'. ⊥) dump
          (λ u. load) w (rw d write_atomic-Stored)
          (λ u w' h. rw l (
            (Triple-bind _ _ read_atomic-Stored
                (λ s. record { at = λ w h. rw (h, parsed) refl })).at
              w' h))
          (λ e w' h. h)
