-- ===== src/Ordinary.antt =====
-- The targets that the theorems are about: files whose name is none that the package makes up for its
-- own transient files.
use safeatomic.Prelude.{ℕ, ◌≡◌, ◌≢◌, false, ◌++◌, Str, codes, ap}
use safeatomic.Text.{starts_with, starts_with-append}
use safeatomic.Sys.Fs.{Dir, FilePath}
use safeatomic.Host.{Host}
use safeatomic.Text.{decimal}
use safeatomic.Paths.{tmp_name, is_tmp_name}
use safeatomic.Paths.Laws.{is_tmp_name-tmp_name}
use safeatomic.Capabilities.Probe.{probe_path}

abbrev pub probe_prefix : Str
probe_prefix = codes ".safeatomic-probe-"

pub record IsOrdinary (target : FilePath) : Type 0 where
  pub no_tmp : is_tmp_name target.name ≡ false
  pub no_probe : starts_with target.name probe_prefix ≡ false

module _ {target : FilePath} (o : IsOrdinary target) where
  pub tmp-ne : (host : Host) (d : Dir) (n : ℕ) → record { dir = d; name = tmp_name host n } ≢ target
  tmp-ne host d n e =
      cc (ap (λ (p : FilePath). is_tmp_name p.name) e, is_tmp_name-tmp_name host n, o.no_tmp)

  pub probe-ne : (host : Host) (d : Dir) (label : Str) → probe_path host d label ≢ target
  unfolding probe_path
  probe-ne host d label e = cc (
    ap (λ (p : FilePath). starts_with p.name probe_prefix) e,
    starts_with-append probe_prefix (label ++ decimal host.pid),
    o.no_probe,
  )
