-- ===== src/Capabilities/Mounts.antt =====
-- The file system type of a path by /proc/mounts: the longest mount point above the path.
use safeatomic.Prelude.{
  Bool, true, false, ◌&&◌, ◌||◌, Option, none, some, List, [], ◌∷◌, ◌++◌, Str, codes, length, ltb,
  if◌then◌else◌,
}
use safeatomic.Prelude.Eq.{◌==◌, nat_eq, list_eq}
use safeatomic.Environment.{Platform, linux}
use safeatomic.Text.{starts_with, rstrip_slash, lower}
use safeatomic.Sys.Fs.{Dir}
use safeatomic.Host.{Host}
use safeatomic.Capabilities.Classify.{detect_platform}

abbrev pub Mount : Type 0
Mount = Str × Str

-- Lines with fewer than three fields are skipped.
unfoldable pub parse_mounts : List (List Str) → List Mount
parse_mounts [] = []
parse_mounts ((device ∷ mountpoint ∷ fstype ∷ rest) ∷ lines) =
    (mountpoint, lower fstype) ∷ parse_mounts lines
parse_mounts (_ ∷ lines) = parse_mounts lines

-- `str(path)`
unfoldable pub below_root : Dir → Str
below_root [] = []
below_root (n ∷ d) = below_root d ++ (b'/' ∷ n)

unfoldable pub path_str : Dir → Str
unfolding below_root
path_str [] = codes "/"
path_str (n ∷ d) = below_root (n ∷ d)

unfoldable pub covers : Str → Str → Bool
covers mount target = target == mount || starts_with target (rstrip_slash mount ++ codes "/")

-- The loop, with `best_mount` and `best_fstype`.
unfoldable pub best_of : Str → List Mount → Str → Option Str → Option Str
best_of target [] best_mount best_fstype = best_fstype
best_of target ((mount, fstype) ∷ mounts) best_mount best_fstype =
    let better = covers mount target && ltb (length best_mount) (length mount) in
    best_of target mounts (if better then mount else best_mount)
      (if better then some fstype else best_fstype)

is_linux : Platform → Bool
is_linux linux = true
is_linux _ = false

-- No mount table and an empty one give `none`, as on another platform.
unfoldable pub detect_filesystem : Host → Dir → Option Str
unfolding is_linux
detect_filesystem host p =
    if is_linux (detect_platform host)
    then elim host.proc_mounts [
      | none ↦ none
      | some lines ↦ best_of (path_str p) (parse_mounts lines) [] none
    ]
    else none
