-- ===== src/Liveness/Mounts.antt =====
-- `unescape_mount_point`, `is_runtime_mount`, `disk_of` and `disks` of liveness/src/metrics.rs.
pub mod Coverage
pub mod Firsts
pub mod Escapes
pub mod Report
use minimal_vm_tool.Prelude.{
  ℕ, zero, suc, ◌+◌, ◌-◌, ◌*◌, ◌%◌, ◌^◌, max, Bool, true, false, ◌&&◌, ◌||◌, Option, none, some,
  List, [], ◌∷◌, ◌++◌, ltb, leb, ◌==◌, if◌then◌else◌, length,
}
use minimal_vm_tool.Liveness.Text.{
  Text, codes, same, strip_prefix, split_whitespace, split, from_str_radix, u64_limit, or_else,
}
use minimal_vm_tool.Liveness.MemInfo.{Usage}

-- `char::from_u32`.
unfoldable pub from_u32 : ℕ → Option ℕ
from_u32 n = if ltb n 0xd800 || (leb 0xe000 n && leb n 0x10ffff) then some n else none

-- What three characters after a backslash are decoded to. Octal digits are one byte each, so the
-- test on `rest.len()` holds wherever they are read.
unfoldable pub decode : Text → Text
unfolding from_u32 from_str_radix
decode rest = elim (from_str_radix 8 (2 ^ 32) rest) [
  | some byte ↦ elim (from_u32 byte) [ some c ↦ c ∷ [] | none ↦ 0xfffd ∷ [] ]
  | none ↦ b'\\' ∷ rest
]

-- The last clause has fewer than three characters behind `c`: an escape is cut off.
unfoldable pub unescape_mount_point : Text → Text
unfolding decode
unescape_mount_point [] = []
unescape_mount_point (c ∷ x ∷ y ∷ z ∷ more) =
    let escaped = decode (x ∷ y ∷ z ∷ []) ++ unescape_mount_point more in
    let literal = c ∷ unescape_mount_point (x ∷ y ∷ z ∷ more) in
    if c == b'\\' then escaped else literal
unescape_mount_point (c ∷ cs) =
    let literal = c ∷ unescape_mount_point cs in if c == b'\\' then c ∷ cs else literal

unfoldable pub starts_with : Text → Text → Bool
unfolding strip_prefix
starts_with text prefix = elim (strip_prefix prefix text) [ some rest ↦ true | none ↦ false ]

unfoldable pub any : (Text → Bool) → List Text → Bool
any test [] = false
any test (x ∷ xs) = test x || any test xs

unfoldable pub is_runtime_mount : Text → Bool
unfolding any starts_with same
is_runtime_mount mount_point =
    any (λ prefix. same mount_point prefix || starts_with mount_point (prefix ++ codes "/"))
      (codes "/run" ∷ codes "/dev" ∷ codes "/nix" ∷ [])

-- `libc::statvfs`, the fields that are read.
pub record Statvfs : Type 0 where
  pub f_frsize : ℕ
  pub f_bsize : ℕ
  pub f_blocks : ℕ
  pub f_bfree : ℕ

-- An entry of a directory: its name, if that is UTF-8, and the device id of its metadata.
pub record Entry : Type 0 where
  pub file_name : Option Text
  pub entry_dev : Option ℕ

-- The system calls: `statvfs`, the device id of `std::fs::metadata`, and the entries of
-- `std::fs::read_dir` that are not errors.
pub record System : Type 0 where
  pub statvfs : Text → Option Statvfs
  pub dev : Text → Option ℕ
  pub read_dir : Text → Option (List Entry)

pub record FileSystemUsage : Type 0 where
  pub mount_point : Text
  pub label : Option Text
  pub usage : Usage

unfoldable pub usage_of_stat : Statvfs → Usage
usage_of_stat stat =
    let block = max stat.f_frsize stat.f_bsize in
    record {
      used = ((stat.f_blocks - stat.f_bfree) * block) % u64_limit;
      total = (stat.f_blocks * block) % u64_limit;
    }

abbrev pub get_or_else : Option ℕ → ℕ → ℕ
get_or_else (some n) d = n
get_or_else none d = d

-- `Vec::contains`.
unfoldable pub contains : List ℕ → ℕ → Bool
contains [] d = false
contains (x ∷ xs) d = x == d || contains xs d

-- The variables of the loop of `disks`.
pub record Disks : Type 0 where
  pub seen : List Text
  pub devices : List ℕ
  pub disks : List FileSystemUsage

module _ (sys : System) where
  -- A path with a NUL byte is refused before the call.
  unfoldable pub disk_of : Text → Option Usage
  unfolding usage_of_stat contains
  disk_of path =
      if contains path 0
      then none
      else elim (sys.statvfs path) [ some stat ↦ some (usage_of_stat stat) | none ↦ none ]

  -- The closure of the `find_map` of `device_label`.
  unfoldable pub label_of : ℕ → Entry → Option Text
  label_of device entry = elim entry.entry_dev [
    | none ↦ none
    | some target ↦ if target == device then entry.file_name else none
  ]

  pub find_label : ℕ → List Entry → Option Text
  unfolding label_of
  find_label device [] = none
  find_label device (entry ∷ entries) = or_else (label_of device entry) (find_label device entries)

  pub by_dir : ℕ → Text → Option Text
  unfolding find_label
  by_dir device dir = elim (sys.read_dir dir) [
    | none ↦ none
    | some entries ↦ find_label device entries
  ]

  pub device_label : ℕ → Option Text
  unfolding by_dir
  device_label device =
      or_else (by_dir device (codes "/dev/disk/by-label")) (by_dir device (codes "/dev/disk/by-id"))

  unfoldable pub device_of : Text → ℕ
  device_of mount_point = get_or_else (sys.dev mount_point) (u64_limit - 1)

  -- The end of a round, from the `match` on `disk_of` on.
  pub add_disk : Disks → Text → Option Usage → Disks
  unfolding contains device_label
  add_disk s mount_point none = s
  add_disk s mount_point (some usage) =
      let device = device_of mount_point in
      if ltb 0 usage.total
      then if contains s.devices device then s else record s {
        devices = s.devices ++ device ∷ [];
        disks =
            s.disks
            ++ record { mount_point = mount_point; label = device_label device; usage = usage }
              ∷ [];
      }
      else s

  -- A round of the loop, at the fields of a line.
  pub mount_round : Disks → List Text → Disks
  unfolding add_disk any same starts_with
  mount_round s (_ ∷ mount ∷ fstype ∷ options ∷ _) =
      let mount_point = unescape_mount_point mount in
      if starts_with fstype (codes "9p")
      then s
      else if any (λ option. same option (codes "ro")) (split b',' options)
      then s
      else if is_runtime_mount mount_point
      then s
      else if any (λ seen. same seen mount_point) s.seen
      then s
      else add_disk (record s { seen = s.seen ++ mount_point ∷ [] }) mount_point
          (disk_of mount_point)
  mount_round s _ = s

  unfoldable pub disks_from : Disks → List Text → Disks
  disks_from s [] = s
  disks_from s (line ∷ lines) = disks_from (mount_round s (split_whitespace line)) lines

  -- `disks`, at the lines of /proc/mounts.
  unfoldable pub disks : List Text → List FileSystemUsage
  unfolding disks_from
  disks lines = (disks_from (record { seen = []; devices = []; disks = [] }) lines).disks
