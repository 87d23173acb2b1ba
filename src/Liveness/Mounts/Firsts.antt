-- ===== src/Liveness/Mounts/Firsts.antt =====
-- `disks` of liveness/src/metrics.rs against a definition without its lists: each device under the
-- first mount point that it can be measured at.
use minimal_vm_tool.Prelude.{
  ℕ, ◌<◌, ◌≡◌, refl, ap, ◌∙◌, sym, true, Option, none, some, List, [], ◌∷◌, ◌++◌, append-nil,
  append-cons, ltb, if◌then◌else◌, Bool-cases, inl, inr, arith,
}
use minimal_vm_tool.Liveness.Text.{Text, codes, same, split, split_whitespace}
use minimal_vm_tool.Liveness.MemInfo.{Usage}
use minimal_vm_tool.Liveness.Mounts.{
  System, FileSystemUsage, Disks, disk_of, device_of, device_label, is_runtime_mount, contains,
  add_disk, mount_round, disks_from, disks, unescape_mount_point, starts_with, any,
}
use minimal_vm_tool.Liveness.Mounts.Coverage.{Covers, mount_round-Covers}

abbrev pub keep : {A : Type 0} → Option A → List A → List A
keep none xs = xs
keep (some x) xs = x ∷ xs

-- The mount point of a line, where it is one of storage that is written.
abbrev pub mount_point_of : List Text → Option Text
mount_point_of (_ ∷ mount ∷ fstype ∷ options ∷ _) =
    if starts_with fstype (codes "9p")
    then none
    else if any (λ option. same option (codes "ro")) (split b',' options)
    then none
    else if is_runtime_mount (unescape_mount_point mount)
    then none
    else some (unescape_mount_point mount)
mount_point_of _ = none

module _ (sys : System) where
  -- What is reported of a mount point: nothing where it has no usage, or no blocks.
  abbrev pub measured : Text → Option Usage → Option FileSystemUsage
  measured m none = none
  measured m (some usage) =
      if ltb 0 usage.total
      then some
          (record { mount_point = m; label = device_label sys (device_of sys m); usage = usage })
      else none

  abbrev pub entry_at : Option Text → Option FileSystemUsage
  entry_at none = none
  entry_at (some m) = measured m (disk_of sys m)

  abbrev pub entries : List Text → List FileSystemUsage
  entries [] = []
  entries (line ∷ lines) = keep (entry_at (mount_point_of (split_whitespace line))) (entries lines)

  -- The first entry of each device that is not among the given ones.
  abbrev pub firsts : List ℕ → List FileSystemUsage → List FileSystemUsage
  firsts devices [] = []
  firsts devices (d ∷ ds) =
      let device = device_of sys d.mount_point in
      let others = firsts devices ds in
      let more = firsts (devices ++ device ∷ []) ds in
      if contains devices device then others else d ∷ more

  -- A round, by the entry of its line.
  abbrev add_first :
      List ℕ → List FileSystemUsage → Option FileSystemUsage → List ℕ × List FileSystemUsage
  add_first devices ds none = (devices, ds)
  add_first devices ds (some d) =
      let device = device_of sys d.mount_point in
      if contains devices device then (devices, ds) else (devices ++ device ∷ [], ds ++ d ∷ [])

  abbrev kept : Disks → List ℕ × List FileSystemUsage
  kept s = (s.devices, s.disks)

  add_disk-kept :
      (s : Disks) (m : Text) (o : Option Usage)
      → kept (add_disk sys s m o) ≡ add_first s.devices s.disks (measured m o)
  unfolding add_disk
  add_disk-kept s m none = refl
  add_disk-kept s m (some usage) = elim (Bool-cases (ltb 0 usage.total)) [
    | inr a ↦ rw a refl
    | inl a ↦ elim (Bool-cases (contains s.devices (device_of sys m))) [
      | inl b ↦ rw (a, b) refl
      | inr b ↦ rw (a, b) refl
    ]
  ]

  -- Each mount point that was seen and can be measured has its device among those reported.
  abbrev CoversAll : Disks → Type 0
  CoversAll s =
      (m : Text) (usage : Usage) (e : disk_of sys m ≡ some usage) (h : 0 < usage.total)
      → Covers sys m usage e h s

  seen_before :
      (s : Disks) (m : Text) (o : Option Usage)
      → disk_of sys m ≡ o
      → CoversAll s
      → any (λ seen. same seen m) s.seen ≡ true
      → kept s ≡ add_first s.devices s.disks (measured m o)
  seen_before s m none e v q = refl
  seen_before s m (some usage) e v q = elim (Bool-cases (ltb 0 usage.total)) [
    | inr a ↦ rw a refl
    | inl a ↦ let b = v m usage e (ground arith) q in rw (a, b) refl
  ]

  mount_round-kept :
      (s : Disks) (fields : List Text)
      → CoversAll s
      → kept (mount_round sys s fields)
        ≡ add_first s.devices s.disks (entry_at (mount_point_of fields))
  unfolding mount_round
  mount_round-kept s [] v = refl
  mount_round-kept s (a ∷ []) v = refl
  mount_round-kept s (a ∷ b ∷ []) v = refl
  mount_round-kept s (a ∷ b ∷ c ∷ []) v = refl
  mount_round-kept s (_ ∷ mount ∷ fstype ∷ options ∷ more) v =
      let m = unescape_mount_point mount in
      elim (Bool-cases (starts_with fstype (codes "9p"))) [
        | inl a ↦ rw a refl
        | inr a ↦
            elim (Bool-cases (any (λ option. same option (codes "ro")) (split b',' options))) [
              | inl b ↦ rw (a, b) refl
              | inr b ↦ elim (Bool-cases (is_runtime_mount m)) [
                | inl c ↦ rw (a, b, c) refl
                | inr c ↦ elim (Bool-cases (any (λ seen. same seen m) s.seen)) [
                  | inl d ↦ rw (a, b, c, d) (seen_before s m (disk_of sys m) refl v d)
                  | inr d ↦
                      rw (a, b, c, d)
                        (add_disk-kept (record s { seen = s.seen ++ m ∷ [] }) m (disk_of sys m))
                ]
              ]
            ]
      ]

  add_first-firsts :
      (devices : List ℕ) (ds : List FileSystemUsage) (o : Option FileSystemUsage)
      (rest : List FileSystemUsage)
      → (add_first devices ds o).1 ++ firsts (add_first devices ds o).0 rest
        ≡ ds ++ firsts devices (keep o rest)
  add_first-firsts devices ds none rest = refl
  add_first-firsts devices ds (some d) rest =
      elim (Bool-cases (contains devices (device_of sys d.mount_point))) [
        | inl a ↦ rw a refl
        | inr a ↦
            rw a (append-cons ds d (firsts (devices ++ device_of sys d.mount_point ∷ []) rest))
      ]

  disks_from-firsts :
      (lines : List Text) (s : Disks)
      → CoversAll s
      → (disks_from sys s lines).disks ≡ s.disks ++ firsts s.devices (entries lines)
  unfolding disks_from
  disks_from-firsts [] s v = sym (append-nil s.disks)
  disks_from-firsts (line ∷ lines) s v =
      let fields = split_whitespace line in
      let s' = mount_round sys s fields in
      disks_from-firsts lines s'
        (λ m usage e h. mount_round-Covers sys m usage e h s fields (v m usage e h))
      ∙ ap (λ (p : List ℕ × List FileSystemUsage). p.1 ++ firsts p.0 (entries lines))
          (mount_round-kept s fields v)
      ∙ add_first-firsts s.devices s.disks (entry_at (mount_point_of fields)) (entries lines)

  -- The filesystems that are reported are, in the order of the mounts, the first of each device
  -- among the mount points that are to be reported: those of lines that have the four fields, are
  -- neither 9p mounts nor read-only and name no runtime mount, whose usage disk_of gives with a
  -- total above zero, each with what device_label gives for its device.
  pub disks-eq-firsts : (lines : List Text) → disks sys lines ≡ firsts [] (entries lines)
  unfolding disks any
  disks-eq-firsts lines =
      disks_from-firsts lines (record { seen = []; devices = []; disks = [] })
        (λ m usage e h q. absurd (cc q))
