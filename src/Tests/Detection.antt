-- ===== src/Tests/Detection.antt =====
-- The detection of capabilities, and the names of temporary files, at concrete inputs.
use safeatomic.Prelude.{◌≤◌, ◌≡◌, ◌≢◌, ◌↔◌, refl, true, none, some, List, [], ◌∷◌, codes, length}
use mathlib.Core.List.{Mem}
use safeatomic.Prelude.Eq.{nat_eq, list_eq, list_beq}
use safeatomic.Sys.Fs.{Dir}
use safeatomic.Sys.World.{World}
use safeatomic.Sys.Exec.{ok}
use safeatomic.Sys.Logic.Ends.{Ends}
use safeatomic.Capabilities.{node_exists, existing_ancestor, detect_at, unknown_environment}
use safeatomic.Capabilities.Mounts.{Mount, best_of}
use safeatomic.Capabilities.Laws.{
  Found, Above, best_of-longest, existing_ancestor-deepest, detect_at_again,
}
use safeatomic.Guarantees.{GuaranteeReport, GuaranteeName, guaranteed, matrix, degraded}
use safeatomic.Environment.{local_posix_memory}
use safeatomic.Guarantees.Laws.{InOrder, degraded_iff}
use safeatomic.Sys.Logic.Ends.{Ends}
use safeatomic.Tests.Machine.{machine}
use safeatomic.Tests.Disk.{at_root, two_files, world_of}

abbrev mounts : List Mount
mounts =
    (codes "/", codes "ext4") ∷ (codes "/srv/", codes "nfs") ∷ (codes "/srvx", codes "xfs") ∷ []

best_of-longest_example :
    Found (codes "/srv/data") mounts (best_of (codes "/srv/data") mounts [] none)
best_of-longest_example = best_of-longest (codes "/srv/data") mounts

abbrev start : World
start = world_of (two_files (at_root (codes "a")) [] (at_root (codes "b")) []) []

abbrev deep : Dir
deep = codes "y" ∷ codes "x" ∷ []

existing_ancestor-deepest_example :
    (node_exists (existing_ancestor deep start.fs) start.fs ≡ true)
    × Above (existing_ancestor deep start.fs) deep
    × ((q : Dir)
        → Above q deep
        → node_exists q start.fs ≡ true
        → length q ≤ length (existing_ancestor deep start.fs))
unfolding list_beq
existing_ancestor-deepest_example = existing_ancestor-deepest deep start.fs refl

detect_at_again_example :
    Ends
      (λ env w'. (q probe : Dir) → detect_at machine q probe (some 1) w' ≡ (ok env, w'))
      (λ e w'. Unit)
      (detect_at machine deep [] (some 1) start)
detect_at_again_example = detect_at_again machine 1 deep [] start

abbrev report : GuaranteeReport
report = record {
  environment = unknown_environment machine;
  guarantees = matrix local_posix_memory;
}

degraded_iff_example :
    ((name : GuaranteeName) → Mem name (degraded report) ↔ (report.guarantees name ≢ guaranteed))
    × InOrder (degraded report)
degraded_iff_example = degraded_iff report
