-- ===== src/Liveness/Mounts/Report.antt =====
-- What `disks` of liveness/src/metrics.rs reports.
use minimal_vm_tool.Prelude.{
  ℕ, ◌<◌, ◌≡◌, refl, ap, ◌∙◌, sym, false, Option, none, some, List, [], ◌∷◌, ◌++◌, map, ltb, ◌==◌,
  Bool-cases, inl, inr, arith,
}
use minimal_vm_tool.Liveness.Text.{Text, codes, same, split_whitespace, split}
use minimal_vm_tool.Liveness.MemInfo.{Usage}
use minimal_vm_tool.Liveness.Mounts.{
  System, FileSystemUsage, Disks, disk_of, device_of, device_label, is_runtime_mount, contains,
  add_disk, mount_round, disks_from, unescape_mount_point, starts_with, any,
}

-- No number twice.
abbrev pub Distinct : List ℕ → Type 0
Distinct [] = Unit
Distinct (d ∷ ds) = (contains ds d ≡ false) × Distinct ds

not_in_append :
    (ds : List ℕ) (d e : ℕ)
    → contains ds d ≡ false
    → (e == d) ≡ false
    → contains (ds ++ e ∷ []) d ≡ false
unfolding contains
not_in_append [] d e h n = rw n refl
not_in_append (x ∷ ds) d e h n = elim (Bool-cases (x == d)) [
  | inl a ↦ absurd (cc (rw a at h))
  | inr a ↦ rw a (not_in_append ds d e (rw a at h) n)
]

Distinct-append :
    (ds : List ℕ) (e : ℕ) → Distinct ds → contains ds e ≡ false → Distinct (ds ++ e ∷ [])
unfolding contains
Distinct-append [] e v h = (refl, tt)
Distinct-append (x ∷ ds) e v h = elim (Bool-cases (x == e)) [
  | inl a ↦ absurd (cc (rw a at h))
  | inr a ↦
      let b : (e == x) ≡ false = ground arith in
      (not_in_append ds x e v.0 b, Distinct-append ds e v.1 (rw a at h))
]

module _ (sys : System) where
  -- An entry of the report, by the calls that it is made of.
  pub record IsMeasured (d : FileSystemUsage) : Type 0 where
    pub storage : is_runtime_mount d.mount_point ≡ false
    pub measured : disk_of sys d.mount_point ≡ some d.usage
    pub has_blocks : 0 < d.usage.total
    pub labelled : d.label ≡ device_label sys (device_of sys d.mount_point)

  abbrev pub AllMeasured : List FileSystemUsage → Type 0
  AllMeasured [] = Unit
  AllMeasured (d ∷ ds) = IsMeasured d × AllMeasured ds

  abbrev pub device_ids : List FileSystemUsage → List ℕ
  device_ids ds = map (λ d. device_of sys d.mount_point) ds

  AllMeasured-append :
      (ds : List FileSystemUsage) (d : FileSystemUsage)
      → AllMeasured ds
      → IsMeasured d
      → AllMeasured (ds ++ d ∷ [])
  AllMeasured-append [] d v h = (h, tt)
  AllMeasured-append (x ∷ ds) d v h = (v.0, AllMeasured-append ds d v.1 h)

  device_ids-append :
      (ds : List FileSystemUsage) (d : FileSystemUsage)
      → device_ids (ds ++ d ∷ []) ≡ device_ids ds ++ device_of sys d.mount_point ∷ []
  device_ids-append [] d = refl
  device_ids-append (x ∷ ds) d = ap (◌∷◌ (device_of sys x.mount_point)) (device_ids-append ds d)

  pub record IsReport (s : Disks) : Type 0 where
    pub all_measured : AllMeasured s.disks
    pub ids : s.devices ≡ device_ids s.disks
    pub distinct : Distinct s.devices

  add_disk-IsReport :
      (s : Disks) (m : Text) (o : Option Usage)
      → IsReport s
      → is_runtime_mount m ≡ false
      → disk_of sys m ≡ o
      → IsReport (add_disk sys s m o)
  unfolding add_disk
  add_disk-IsReport s m none v h e = v
  add_disk-IsReport s m (some usage) v h e = elim (Bool-cases (ltb 0 usage.total)) [
    | inr a ↦ rw a v
    | inl a ↦ elim (Bool-cases (contains s.devices (device_of sys m))) [
      | inl b ↦ rw (a, b) v
      | inr b ↦
          let d : FileSystemUsage = record {
            mount_point = m;
            label = device_label sys (device_of sys m);
            usage = usage;
          } in
          rw (a, b)
            (record {
              all_measured = AllMeasured-append s.disks d v.all_measured (record {
                storage = h;
                measured = e;
                has_blocks = ground arith;
                labelled = refl;
              });
              ids = ap (λ ds. ds ++ device_of sys m ∷ []) v.ids ∙ sym (device_ids-append s.disks d);
              distinct = Distinct-append s.devices (device_of sys m) v.distinct b;
            })
    ]
  ]

  mount_round-IsReport :
      (s : Disks) (fields : List Text) → IsReport s → IsReport (mount_round sys s fields)
  unfolding mount_round
  mount_round-IsReport s [] v = v
  mount_round-IsReport s (a ∷ []) v = v
  mount_round-IsReport s (a ∷ b ∷ []) v = v
  mount_round-IsReport s (a ∷ b ∷ c ∷ []) v = v
  mount_round-IsReport s (_ ∷ mount ∷ fstype ∷ options ∷ more) v =
      let m = unescape_mount_point mount in
      elim (Bool-cases (starts_with fstype (codes "9p"))) [
        | inl a ↦ rw a v
        | inr a ↦
            elim (Bool-cases (any (λ option. same option (codes "ro")) (split b',' options))) [
              | inl b ↦ rw (a, b) v
              | inr b ↦ elim (Bool-cases (is_runtime_mount m)) [
                | inl c ↦ rw (a, b, c) v
                | inr c ↦ elim (Bool-cases (any (λ seen. same seen m) s.seen)) [
                  | inl d ↦ rw (a, b, c, d) v
                  | inr d ↦
                      rw (a, b, c, d)
                        (add_disk-IsReport (record s { seen = s.seen ++ m ∷ [] }) m (disk_of sys m)
                          (record {
                            all_measured = v.all_measured;
                            ids = v.ids;
                            distinct = v.distinct;
                          })
                          c refl)
                ]
              ]
            ]
      ]

  disks_from-IsReport :
      (lines : List Text) (s : Disks) → IsReport s → IsReport (disks_from sys s lines)
  unfolding disks_from
  disks_from-IsReport [] s v = v
  disks_from-IsReport (line ∷ lines) s v =
      disks_from-IsReport lines (mount_round sys s (split_whitespace line))
        (mount_round-IsReport s (split_whitespace line) v)

  abbrev pub no_disks : Disks
  no_disks = record { seen = []; devices = []; disks = [] }

  -- The device ids that the loop has kept are those of the report.
  pub reported :
      (lines : List Text)
      → (disks_from sys no_disks lines).devices ≡ device_ids (disks_from sys no_disks lines).disks
  reported lines =
      let v =
        disks_from-IsReport lines no_disks
          (record { all_measured = tt; ids = refl; distinct = tt }) in
      v.ids
