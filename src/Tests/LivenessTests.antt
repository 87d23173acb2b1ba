-- ===== src/Tests/LivenessTests.antt =====
-- liveness/src/metrics.rs and protocol/src/data_bytes.rs, on concrete inputs.
use minimal_vm_tool.Prelude.{
  true, ℕ, ◌*◌, ◌/◌, ◌≡◌, refl, inl, min, some, none, List, [], ◌∷◌, ◌++◌, map, arith, Bytes,
}
use minimal_vm_tool.Outcome.{ok}
use minimal_vm_tool.Protocol.DataBytes.{
  Format, Visit, visit_str, visit_seq, IsSelfDescribing, serialize, deserialize,
  deserialize-serialize,
}
use minimal_vm_tool.Liveness.Text.{
  Text, codes, strip_prefix, find_map, from_str_radix, same, split, split_whitespace,
}
use minimal_vm_tool.Liveness.CpuStat.{ProcStat, Float, parse, fields_of, read_proc_stat, sample}
use minimal_vm_tool.Liveness.CpuStat.Counters.{
  leading, sum, idle_from, exact, Samples, parse-eq-exact, sample-Samples,
}
use minimal_vm_tool.Liveness.MemInfo.{
  kb_of, meminfo_field, memory, swap, Fits, Reports, memory-swap-Reports,
}
use minimal_vm_tool.Liveness.Mounts.{
  System, disks, disk_of, device_of, usage_of_stat, contains, starts_with, any, is_runtime_mount,
  unescape_mount_point,
}
use minimal_vm_tool.Liveness.Mounts.Coverage.{IsEligible, contains-device_ids}
use minimal_vm_tool.Liveness.Mounts.Escapes.{escape, unescape_mount_point-escape}
use minimal_vm_tool.Liveness.Mounts.Firsts.{firsts, entries, disks-eq-firsts}
use minimal_vm_tool.Liveness.Mounts.Report.{device_ids}
use minimal_vm_tool.Liveness.Systemd.{SystemdState, degraded, fmt, parse-fmt}
use minimal_vm_tool.Liveness.Systemd

-- A format that keeps the call that it was given.
abbrev visits : Format
visits = record {
  Wire = Visit;
  serialize_str = visit_str;
  serialize_bytes = λ b. visit_seq (map ok b);
  deserialize_any = λ v. v;
}

abbrev visits-IsSelfDescribing : IsSelfDescribing visits
visits-IsSelfDescribing = record { str_visit = λ s. inl refl; bytes_visit = λ b h. inl refl }

abbrev binary : Bytes
binary = 200 ∷ 10 ∷ []

abbrev cpu_rest : Text
cpu_rest = codes " 10 0 20 60 10"

abbrev cpu_line : Text
cpu_line = codes "cpu  10 0 20 60 10"

-- Numbers in place of `f64`, rounded down.
abbrev whole : Float
whole = record { F64 = ℕ; from_u64 = λ n. n; div = ◌/◌; mul = ◌*◌; clamp = λ n lo hi. min n hi }

abbrev at_boot : ProcStat
at_boot = record { total = 50; idle = 40 }

abbrev meminfo : List Text
meminfo =
    codes "MemTotal:  2048 kB"
    ∷ codes "MemAvailable: 1024 kB"
    ∷ codes "SwapTotal: 0 kB"
    ∷ codes "SwapFree: 0 kB"
    ∷ []

-- One device of ten blocks, at every path.
abbrev one_disk : System
one_disk = record {
  statvfs = λ path. some (record { f_frsize = 512; f_bsize = 512; f_blocks = 10; f_bfree = 4 });
  dev = λ path. some 7;
  read_dir = λ path. none;
}

abbrev mounts : List Text
mounts =
    codes "/dev/vda / ext4 rw 0 0"
    ∷ codes "/dev/vda /tmp ext4 rw 0 0"
    ∷ codes "tmpfs /run tmpfs rw 0 0"
    ∷ []

deserialize-serialize_example : deserialize visits (serialize visits binary) ≡ ok binary
deserialize-serialize_example =
    deserialize-serialize visits visits-IsSelfDescribing binary (omega arith, (omega arith, tt))

cpu_stripped : strip_prefix (codes "cpu ") cpu_line ≡ some cpu_rest
unfolding strip_prefix
cpu_stripped = refl

parse-eq-exact_example :
    parse cpu_line
    ≡ exact (sum (leading (fields_of cpu_rest))) (idle_from 0 (leading (fields_of cpu_rest)))
parse-eq-exact_example = parse-eq-exact cpu_line cpu_rest cpu_stripped

sample-Samples_example :
    Samples whole at_boot (read_proc_stat (cpu_line ∷ [])) (sample whole at_boot (cpu_line ∷ []))
sample-Samples_example =
    sample-Samples whole at_boot (cpu_line ∷ [])
      (record { idle_in = omega arith; fits = omega arith })

memory-Fits : Fits (meminfo_field meminfo "MemTotal:")
unfolding meminfo_field find_map kb_of from_str_radix
memory-Fits = omega arith

swap-Fits : Fits (meminfo_field meminfo "SwapTotal:")
unfolding meminfo_field find_map kb_of from_str_radix
swap-Fits = omega arith

memory-swap-Reports_example :
    Reports
      (meminfo_field meminfo "MemTotal:")
      (meminfo_field meminfo "MemAvailable:")
      (memory meminfo)
    × Reports
        (meminfo_field meminfo "SwapTotal:")
        (meminfo_field meminfo "SwapFree:")
        (swap meminfo)
memory-swap-Reports_example = memory-swap-Reports meminfo memory-Fits swap-Fits

unescape_mount_point-escape_example :
    unescape_mount_point (escape (codes "/a b\\c")) ≡ codes "/a b\\c"
unescape_mount_point-escape_example = unescape_mount_point-escape (codes "/a b\\c")

disks-eq-firsts_example : disks one_disk mounts ≡ firsts one_disk [] (entries one_disk mounts)
disks-eq-firsts_example = disks-eq-firsts one_disk mounts

parse-fmt_example : Systemd.parse (fmt degraded ++ b'\n' ∷ []) ≡ degraded
parse-fmt_example = parse-fmt degraded

root_usage : disk_of one_disk (codes "/") ≡ some (record { used = 3072; total = 5120 })
unfolding disk_of usage_of_stat contains
root_usage = refl

mounts-IsEligible :
    IsEligible one_disk
      (codes "/")
      (record { used = 3072; total = 5120 })
      root_usage
      (omega arith)
      (split_whitespace (codes "/dev/vda / ext4 rw 0 0"))
unfolding split_whitespace starts_with any split unescape_mount_point is_runtime_mount same
    strip_prefix
mounts-IsEligible = (refl, refl, refl, refl)

root_is_reported :
    contains (device_ids one_disk (disks one_disk mounts)) (device_of one_disk (codes "/")) ≡ true
root_is_reported =
    contains-device_ids one_disk (codes "/") (record { used = 3072; total = 5120 }) root_usage
      (omega arith) [] (codes "/dev/vda /tmp ext4 rw 0 0" ∷ codes "tmpfs /run tmpfs rw 0 0" ∷ [])
      (codes "/dev/vda / ext4 rw 0 0") mounts-IsEligible
