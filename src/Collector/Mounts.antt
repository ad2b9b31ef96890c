-- ===== src/Collector/Mounts.antt =====
-- internal/agent/collector/collector.go: which partitions a node reports.
use Prim.Native.Char.{nul}
use Prim.Native.String.{len, compare}
use pumpkin_pie.Prelude.{
  String, ◌<>◌, Bool, true, not, ◌||◌, ◌==◌, Option, none, some, List, [], ◌∷◌, map, any, keep, ltb,
  if◌then◌else◌,
}
use text.Mathlib.Text.{starts_with, is_lt}
use pumpkin_pie.Prelude.Dicts.{Dict, lookup, insert}

-- disk.PartitionStat
pub record PartitionStat : Type 0 where
  pub device : String
  pub mountpoint : String
  pub fstype : String

abbrev pub ignored_mount_prefixes : List String
ignored_mount_prefixes =
    "/var/lib/kubelet" ∷ "/var/lib/docker" ∷ "/var/lib/containerd" ∷ "/var/lib/containers"
    ∷ "/var/lib/rancher" ∷ "/snap" ∷ "/var/snap" ∷ "/var/lib/snapd" ∷ "/boot" ∷ "/run" ∷ "/proc"
    ∷ "/sys" ∷ "/dev" ∷ "/System/Volumes/Preboot" ∷ "/System/Volumes/Update"
    ∷ "/System/Volumes/Update/SFR/mnt1" ∷ "/System/Volumes/VM" ∷ "/System/Volumes/Data"
    ∷ "/System/Volumes/xarts" ∷ "/System/Volumes/Hardware" ∷ "/System/Volumes/iSCPreboot" ∷ "/nix"
    ∷ []

unfoldable pub is_ignored_mount : String → Bool
unfolding any
is_ignored_mount mp = any (λ p. mp == p || starts_with mp (p <> "/")) ignored_mount_prefixes

abbrev pub ignored_fstypes : List String
ignored_fstypes =
    "squashfs" ∷ "iso9660" ∷ "udf" ∷ "overlay" ∷ "overlay2" ∷ "aufs" ∷ "fuse.snapfuse"
    ∷ "fuse.portal" ∷ "fuse.gvfsd-fuse" ∷ "nfs" ∷ "nfs4" ∷ "cifs" ∷ "smbfs" ∷ "9p" ∷ []

-- `lower` is strings.ToLower.
unfoldable pub is_ignored_fstype : (String → String) → String → Bool
unfolding any
is_ignored_fstype lower fs = any (λ t. t == lower fs) ignored_fstypes

unfoldable pub is_ignored : (String → String) → PartitionStat → Bool
unfolding is_ignored_mount is_ignored_fstype
is_ignored lower p = is_ignored_mount p.mountpoint || is_ignored_fstype lower p.fstype

-- The key by which partitions are merged.
unfoldable pub device_key : PartitionStat → String
device_key p = if p.device == "" then String.◌∷◌ nul "mp:" <> p.mountpoint else p.device

unfoldable pub is_better : PartitionStat → Option PartitionStat → Bool
is_better p none = true
is_better p (some cur) = ltb (len p.mountpoint) (len cur.mountpoint)

-- The loop that fills `best`.
unfoldable pub best_of : List PartitionStat → Dict PartitionStat → Dict PartitionStat
unfolding device_key is_better
best_of [] best = best
best_of (p ∷ ps) best =
    best_of ps
      (if is_better p (lookup (device_key p) best) then insert (device_key p) p best else best)

-- sort.Slice by mountpoint; entries with the same one stay in the order of the map's visit
unfoldable pub insert_by_mount : PartitionStat → List PartitionStat → List PartitionStat
insert_by_mount p [] = p ∷ []
insert_by_mount p (q ∷ qs) =
    let rest = insert_by_mount p qs in
    if is_lt (compare q.mountpoint p.mountpoint) then q ∷ rest else p ∷ q ∷ qs

unfoldable pub sort_by_mount : List PartitionStat → List PartitionStat
unfolding insert_by_mount
sort_by_mount [] = []
sort_by_mount (p ∷ ps) = insert_by_mount p (sort_by_mount ps)

unfoldable pub filter_partitions : (String → String) → List PartitionStat → List PartitionStat
unfolding is_ignored best_of sort_by_mount keep
filter_partitions lower parts =
    let kept = keep (λ p. not (is_ignored lower p)) parts in
    sort_by_mount (map (λ e. e.1) (best_of kept []))
