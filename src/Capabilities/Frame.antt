-- ===== src/Capabilities/Frame.antt =====
-- The probes and the detection leave an ordinary target alone.
use safeatomic.Prelude.{refl, inl, inr, Bool-cases, ℕ, Option, none, some, Bytes, if◌then◌else◌}
use safeatomic.Environment.{Capability, Environment}
use safeatomic.Sys.Errors.{is_os_error}
use safeatomic.Sys.Fs.{Dir, FilePath}
use safeatomic.Sys.World.{World}
use safeatomic.Sys.Exec.{Exec, pure, raise, try_except, ◌>>=◌, modify}
use safeatomic.Sys.Logic.Keeps.{
  Keeps, Keeps-bind, Keeps-if, Keeps-try_except, Keeps-finally, Keeps-pure, Keeps-raise, Keeps-gets,
  Keeps-suppress_os, Keeps-option,
}
use safeatomic.Sys.Files.Holds.{Range, Holds, Keeps-call}
use safeatomic.Sys.Files.Frame.{Keeps-unlink, Keeps-replace, unmoved}
use safeatomic.Sys.Files.Descriptors.{Keeps-open_dir, Keeps-fsync, Keeps-close}
use safeatomic.Sys.Files.Creation.{Keeps-open_excl, Keeps-open_trunc}
use safeatomic.Host.{Host}
use safeatomic.Ordinary.{IsOrdinary, probe-ne}
use safeatomic.Capabilities.{
  node_exists, cache_get, cache_put, probe_environment, lookup_or_probe, stat_node, detect_at,
  detect_environment,
}
use safeatomic.Capabilities.Probe.{
  or_report, in_directory, probe_fsync_file, probe_fsync_dir, probe_atomic_replace,
}

module _ {P : World → Type 0} where
  in_directory-Keeps :
      (parent : Dir) (m : Exec Capability) → Keeps P m → Keeps P (in_directory parent m)
  in_directory-Keeps parent m k =
      Keeps-bind _ _ (Keeps-gets _) (λ b. Keeps-if b _ _ k (Keeps-pure _))

  or_report-Keeps : (m : Exec Capability) (c : Capability) → Keeps P m → Keeps P (or_report m c)
  or_report-Keeps m c k =
      Keeps-try_except m _ k (λ e. Keeps-if (is_os_error e) _ _ (Keeps-pure c) (Keeps-raise e))

  pub catch-Keeps :
      {A : Type 0} (m : Exec A)
      → Keeps P m
      → Keeps P (
          try_except (m >>= λ x. pure (some x)) (λ e. if is_os_error e then pure none else raise e))
  catch-Keeps m k =
      Keeps-try_except _ _ (Keeps-bind _ _ k (λ x. Keeps-pure _))
        (λ e. Keeps-if (is_os_error e) _ _ (Keeps-pure _) (Keeps-raise e))

module _ {target : FilePath} (o : IsOrdinary target) {c d a b v : Option Bytes}
    (r : Range c d a b v) (host : Host) where
  Keeps-probe_fsync_file :
      (parent : Dir) → Keeps (Holds target c d a b v) (probe_fsync_file host parent)
  unfolding probe_fsync_file
  Keeps-probe_fsync_file parent = in_directory-Keeps parent _ (
      or_report-Keeps _ _ (
        Keeps-bind _ _ (Keeps-open_excl r _ (probe-ne o host parent _)) (λ fd.
          Keeps-bind _ _
            (Keeps-finally _ _ (Keeps-fsync r fd) (
              Keeps-bind _ _ (Keeps-close r fd)
                (λ u. Keeps-suppress_os _ (Keeps-unlink r _ (probe-ne o host parent _)))))
            (λ u. Keeps-pure _))))

  Keeps-probe_fsync_dir : (parent : Dir) → Keeps (Holds target c d a b v) (probe_fsync_dir parent)
  unfolding probe_fsync_dir
  Keeps-probe_fsync_dir parent = in_directory-Keeps parent _ (
      Keeps-bind _ _ (catch-Keeps _ (Keeps-open_dir r parent)) (λ opened.
        Keeps-option opened _ _ (Keeps-pure _) (λ fd.
          Keeps-finally _ _
            (or_report-Keeps _ _ (Keeps-bind _ _ (Keeps-fsync r fd) (λ u. Keeps-pure _)))
            (Keeps-close r fd))))

  Keeps-probe_atomic_replace :
      (parent : Dir) → Keeps (Holds target c d a b v) (probe_atomic_replace host parent)
  unfolding probe_atomic_replace
  Keeps-probe_atomic_replace parent =
      let ne = probe-ne o host parent in
      in_directory-Keeps parent _ (
        Keeps-bind _ _
          (Keeps-try_except _ _
            (Keeps-bind _ _ (Keeps-open_trunc r _ (ne _)) (λ fd.
              Keeps-bind _ _ (Keeps-close r fd)
                (λ u. Keeps-bind _ _ (Keeps-replace r _ _ (ne _) (ne _)) (λ u. Keeps-pure _))))
            (λ e. Keeps-if (is_os_error e) _ _ (Keeps-pure _) (Keeps-raise e)))
          (λ survived.
            Keeps-if survived _ _
              (Keeps-bind _ _ (Keeps-suppress_os _ (Keeps-unlink r _ (ne _))) (λ u. Keeps-pure _))
              (Keeps-bind _ _ (Keeps-suppress_os _ (Keeps-unlink r _ (ne _))) (λ u.
                Keeps-bind _ _ (Keeps-suppress_os _ (Keeps-unlink r _ (ne _)))
                  (λ u. Keeps-pure _)))))

  Keeps-cache_put :
      (st_dev : ℕ) (env : Environment) → Keeps (Holds target c d a b v) (cache_put st_dev env)
  unfolding cache_put modify
  Keeps-cache_put st_dev env = record {
    at = λ w h. record {
      settled = h.settled;
      clear = h.clear;
      held = h.held;
      past = h.past;
      calm = h.calm;
    };
  }

  Keeps-stat_node : (p : Dir) → Keeps (Holds target c d a b v) (stat_node p)
  unfolding stat_node
  Keeps-stat_node p =
      Keeps-try_except _ _
        (Keeps-call r _ λ fs s. elim (Bool-cases (node_exists p fs)) [
          | inl e ↦ rw e (s, unmoved target fs fs refl refl refl)
          | inr e ↦ rw e tt
        ])
        (λ e. Keeps-if (is_os_error e) _ _ (Keeps-pure _) (Keeps-raise e))

  Keeps-probe_environment :
      (p parent : Dir) → Keeps (Holds target c d a b v) (probe_environment host p parent)
  unfolding probe_environment
  Keeps-probe_environment p parent = Keeps-bind _ _ (Keeps-probe_fsync_file parent) (λ x.
      Keeps-bind _ _ (Keeps-probe_fsync_dir parent)
        (λ y. Keeps-bind _ _ (Keeps-probe_atomic_replace parent) (λ z. Keeps-pure _)))

  lookup_or_probe-Keeps :
      (p probe_dir : Dir) (st_dev : ℕ) (cached : Option Environment)
      → Keeps (Holds target c d a b v) (lookup_or_probe host p probe_dir st_dev cached)
  unfolding lookup_or_probe
  lookup_or_probe-Keeps p probe_dir st_dev (some env) = Keeps-pure env
  lookup_or_probe-Keeps p probe_dir st_dev none = Keeps-bind _ _ (Keeps-gets _) (λ x.
      Keeps-bind _ _ (Keeps-probe_environment p _)
        (λ env. Keeps-bind _ _ (Keeps-cache_put st_dev env) (λ u. Keeps-pure env)))

  detect_at-Keeps :
      (p probe_dir : Dir) (st : Option ℕ)
      → Keeps (Holds target c d a b v) (detect_at host p probe_dir st)
  unfolding detect_at cache_get
  detect_at-Keeps p probe_dir none = Keeps-pure _
  detect_at-Keeps p probe_dir (some st_dev) =
      Keeps-bind _ _ (Keeps-gets _) (λ cached. lookup_or_probe-Keeps p probe_dir st_dev cached)

  pub Keeps-detect_environment :
      (p : Dir) → Keeps (Holds target c d a b v) (detect_environment host p)
  unfolding detect_environment
  Keeps-detect_environment p = Keeps-bind _ _ (Keeps-gets _) (λ probe_dir.
      Keeps-bind _ _ (Keeps-stat_node probe_dir) (λ st. detect_at-Keeps p probe_dir st))
