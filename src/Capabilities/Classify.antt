-- ===== src/Capabilities/Classify.antt =====
-- The platform, and the class of a file system by its name or by the probes.
use safeatomic.Prelude.{
  Bool, true, false, ◌&&◌, ◌||◌, Option, none, some, List, [], ◌∷◌, Str, codes, if◌then◌else◌,
}
use safeatomic.Prelude.Eq.{◌==◌, nat_eq, list_eq}
use safeatomic.Environment.{
  Capability, supported, Platform, linux, darwin, freebsd, openbsd, netbsd, windows_platform,
  unknown_platform, FilesystemClass, local_posix_persistent, local_posix_memory, network, windows,
  object_store, unknown,
}
use safeatomic.Text.{starts_with}
use safeatomic.Host.{Host}

unfoldable pub detect_platform : Host → Platform
detect_platform host =
    let sp = host.sys_platform in
    if starts_with sp (codes "linux")
    then linux
    else if sp == codes "darwin"
    then darwin
    else if starts_with sp (codes "freebsd")
    then freebsd
    else if starts_with sp (codes "openbsd")
    then openbsd
    else if starts_with sp (codes "netbsd")
    then netbsd
    else if sp == codes "win32" || sp == codes "cygwin"
    then windows_platform
    else unknown_platform

unfoldable pub class_table : List (Str × FilesystemClass)
class_table =
    (codes "ext2", local_posix_persistent)
    ∷ (codes "ext3", local_posix_persistent)
    ∷ (codes "ext4", local_posix_persistent)
    ∷ (codes "xfs", local_posix_persistent)
    ∷ (codes "btrfs", local_posix_persistent)
    ∷ (codes "zfs", local_posix_persistent)
    ∷ (codes "apfs", local_posix_persistent)
    ∷ (codes "hfs", local_posix_persistent)
    ∷ (codes "ufs", local_posix_persistent)
    ∷ (codes "f2fs", local_posix_persistent)
    ∷ (codes "jfs", local_posix_persistent)
    ∷ (codes "reiserfs", local_posix_persistent)
    ∷ (codes "overlay", local_posix_persistent)
    ∷ (codes "overlayfs", local_posix_persistent)
    ∷ (codes "tmpfs", local_posix_memory)
    ∷ (codes "ramfs", local_posix_memory)
    ∷ (codes "devtmpfs", local_posix_memory)
    ∷ (codes "nfs", network)
    ∷ (codes "nfs3", network)
    ∷ (codes "nfs4", network)
    ∷ (codes "smbfs", network)
    ∷ (codes "smb3", network)
    ∷ (codes "cifs", network)
    ∷ (codes "sshfs", network)
    ∷ (codes "fuse.sshfs", network)
    ∷ (codes "ntfs", windows)
    ∷ (codes "ntfs3", windows)
    ∷ (codes "refs", windows)
    ∷ (codes "fuse.s3fs", object_store)
    ∷ (codes "s3fs", object_store)
    ∷ (codes "fuse.gcsfuse", object_store)
    ∷ (codes "gcsfuse", object_store)
    ∷ []

-- `table.get(name)`
unfoldable pub find_class : Str → List (Str × FilesystemClass) → Option FilesystemClass
find_class name [] = none
find_class name ((key, klass) ∷ table) = if key == name then some klass else find_class name table

is_supported : Capability → Bool
is_supported supported = true
is_supported _ = false

is_windows : Platform → Bool
is_windows windows_platform = true
is_windows _ = false

unfoldable pub classify_by_probes : Platform → Capability → Capability → FilesystemClass
unfolding is_supported is_windows
classify_by_probes platform supports_fsync_dir supports_atomic_replace =
    if is_windows platform
    then windows
    else if is_supported supports_fsync_dir && is_supported supports_atomic_replace
    then local_posix_persistent
    else unknown

unfoldable pub classify_filesystem :
    Option Str → Platform → Capability → Capability → FilesystemClass
classify_filesystem none platform fsync_dir atomic_replace =
    classify_by_probes platform fsync_dir atomic_replace
classify_filesystem (some fstype) platform fsync_dir atomic_replace =
    elim (find_class fstype class_table) [
      | some klass ↦ klass
      | none ↦ classify_by_probes platform fsync_dir atomic_replace
    ]
