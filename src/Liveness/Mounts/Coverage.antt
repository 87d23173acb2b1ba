-- ===== src/Liveness/Mounts/Coverage.antt =====
-- Every device that is to be reported by `disks` of liveness/src/metrics.rs is.
use minimal_vm_tool.Prelude.{
  ℕ, ◌<◌, ◌≡◌, refl, ap, ap₂, ◌∙◌, sym, subst, Bool, true, false, Option, none, some, List, [], ◌∷◌,
  ◌++◌, ltb, ◌==◌, Bool-cases, ◌⊎◌, inl, inr, arith,
}
use minimal_vm_tool.Liveness.Text.{Text, codes, same, split_whitespace, split}
use minimal_vm_tool.Liveness.MemInfo.{Usage}
use minimal_vm_tool.Liveness.Mounts.Report.{device_ids, reported}
use minimal_vm_tool.Liveness.Mounts.{
  System, Disks, disk_of, device_of, is_runtime_mount, contains, add_disk, mount_round, disks_from,
  disks, unescape_mount_point, starts_with, any,
}

same-eq : (a b : Text) → same a b ≡ true → a ≡ b
unfolding same
same-eq [] [] h = refl
same-eq [] (d ∷ ds) h = absurd (cc h)
same-eq (c ∷ cs) [] h = absurd (cc h)
same-eq (c ∷ cs) (d ∷ ds) h = elim (Bool-cases (c == d)) [
  | inl a ↦ ap₂ ◌∷◌ (ground arith) (same-eq cs ds (rw a at h))
  | inr a ↦ absurd (cc (rw a at h))
]

contains-append : (ds : List ℕ) (e d : ℕ) → contains ds d ≡ true → contains (ds ++ e ∷ []) d ≡ true
unfolding contains
contains-append [] e d h = absurd (cc h)
contains-append (x ∷ ds) e d h = elim (Bool-cases (x == d)) [
  | inl a ↦ rw a refl
  | inr a ↦ rw a (contains-append ds e d (rw a at h))
]

contains-last : (ds : List ℕ) (d : ℕ) → contains (ds ++ d ∷ []) d ≡ true
unfolding contains
contains-last [] d = ground arith
contains-last (x ∷ ds) d = elim (Bool-cases (x == d)) [
  | inl a ↦ rw a refl
  | inr a ↦ rw a (contains-last ds d)
]

any-append :
    (test : Text → Bool) (xs : List Text) (x : Text)
    → any test (xs ++ x ∷ []) ≡ true
    → (any test xs ≡ true) ⊎ (test x ≡ true)
unfolding any
any-append test [] x h = elim (Bool-cases (test x)) [
  | inl a ↦ inr a
  | inr a ↦ absurd (cc (rw a at h))
]
any-append test (y ∷ xs) x h = elim (Bool-cases (test y)) [
  | inl a ↦ inl (rw a refl)
  | inr a ↦ rw a (any-append test xs x (rw a at h))
]

module _ (sys : System) where
  add_disk-keeps :
      (s : Disks) (m : Text) (o : Option Usage) (d : ℕ)
      → contains s.devices d ≡ true
      → contains (add_disk sys s m o).devices d ≡ true
  unfolding add_disk
  add_disk-keeps s m none d h = h
  add_disk-keeps s m (some usage) d h = elim (Bool-cases (ltb 0 usage.total)) [
    | inr a ↦ rw a h
    | inl a ↦ elim (Bool-cases (contains s.devices (device_of sys m))) [
      | inl b ↦ rw (a, b) h
      | inr b ↦ rw (a, b) (contains-append s.devices (device_of sys m) d h)
    ]
  ]

  add_disk-adds :
      (s : Disks) (m : Text) (usage : Usage)
      → 0 < usage.total
      → contains (add_disk sys s m (some usage)).devices (device_of sys m) ≡ true
  unfolding add_disk
  add_disk-adds s m usage h =
      let a : ltb 0 usage.total ≡ true = ground arith in
      elim (Bool-cases (contains s.devices (device_of sys m))) [
        | inl b ↦ rw (a, b) b
        | inr b ↦ rw (a, b) (contains-last s.devices (device_of sys m))
      ]

  seen-add_disk : (s : Disks) (m : Text) (o : Option Usage) → (add_disk sys s m o).seen ≡ s.seen
  unfolding add_disk
  seen-add_disk s m none = refl
  seen-add_disk s m (some usage) = elim (Bool-cases (ltb 0 usage.total)) [
    | inr a ↦ rw a refl
    | inl a ↦ elim (Bool-cases (contains s.devices (device_of sys m))) [
      | inl b ↦ rw (a, b) refl
      | inr b ↦ rw (a, b) refl
    ]
  ]

  abbrev with_seen : Disks → Text → Disks
  with_seen s m = record s { seen = s.seen ++ m ∷ [] }

  -- A round skips its line, or adds its mount point.
  mount_round-cases :
      (s : Disks) (fields : List Text)
      → (mount_round sys s fields ≡ s)
        ⊎ ((m : Text) × (mount_round sys s fields ≡ add_disk sys (with_seen s m) m (disk_of sys m)))
  unfolding mount_round
  mount_round-cases s [] = inl refl
  mount_round-cases s (a ∷ []) = inl refl
  mount_round-cases s (a ∷ b ∷ []) = inl refl
  mount_round-cases s (a ∷ b ∷ c ∷ []) = inl refl
  mount_round-cases s (_ ∷ mount ∷ fstype ∷ options ∷ more) =
      let m = unescape_mount_point mount in
      elim (Bool-cases (starts_with fstype (codes "9p"))) [
        | inl a ↦ inl (rw a refl)
        | inr a ↦
            elim (Bool-cases (any (λ option. same option (codes "ro")) (split b',' options))) [
              | inl b ↦ inl (rw (a, b) refl)
              | inr b ↦ elim (Bool-cases (is_runtime_mount m)) [
                | inl c ↦ inl (rw (a, b, c) refl)
                | inr c ↦ elim (Bool-cases (any (λ seen. same seen m) s.seen)) [
                  | inl d ↦ inl (rw (a, b, c, d) refl)
                  | inr d ↦ inr (m, rw (a, b, c, d) refl)
                ]
              ]
            ]
      ]

  module _ (m : Text) (usage : Usage) (e : disk_of sys m ≡ some usage) (h : 0 < usage.total) where
    abbrev pub Covered : Disks → Type 0
    Covered s = contains s.devices (device_of sys m) ≡ true

    -- A mount point that was seen has its device among those reported.
    abbrev pub Covers : Disks → Type 0
    Covers s = any (λ seen. same seen m) s.seen ≡ true → Covered s

    add_disk-Covers :
        (s : Disks) (n : Text) → Covers s → Covers (add_disk sys (with_seen s n) n (disk_of sys n))
    add_disk-Covers s n v q =
        let o = disk_of sys n in
        elim (any-append (λ seen. same seen m) s.seen n
          (ap (λ xs. any (λ seen. same seen m) xs) (sym (seen-add_disk (with_seen s n) n o)) ∙ q)) [
            | inl old ↦ add_disk-keeps (with_seen s n) n o (device_of sys m) (v old)
            | inr new ↦
                let same_path : m ≡ n = sym (same-eq n m new) in
                subst (λ x. Covered (add_disk sys (with_seen s x) x (disk_of sys x))) same_path
                  (rw e (add_disk-adds (with_seen s m) m usage h))
          ]

    pub mount_round-Covers :
        (s : Disks) (fields : List Text) → Covers s → Covers (mount_round sys s fields)
    mount_round-Covers s fields v = elim (mount_round-cases s fields) [
      | inl skipped ↦ subst Covers (sym skipped) v
      | inr (n, added) ↦ subst Covers (sym added) (add_disk-Covers s n v)
    ]

    mount_round-keeps :
        (s : Disks) (fields : List Text) → Covered s → Covered (mount_round sys s fields)
    mount_round-keeps s fields v = elim (mount_round-cases s fields) [
      | inl skipped ↦ subst Covered (sym skipped) v
      | inr (n, added) ↦
          subst Covered (sym added)
            (add_disk-keeps (with_seen s n) n (disk_of sys n) (device_of sys m) v)
    ]

    disks_from-keeps :
        (lines : List Text) (s : Disks) → Covered s → Covered (disks_from sys s lines)
    unfolding disks_from
    disks_from-keeps [] s v = v
    disks_from-keeps (line ∷ lines) s v =
        disks_from-keeps lines (mount_round sys s (split_whitespace line))
          (mount_round-keeps s (split_whitespace line) v)

    -- The fields of a line for a mount point that is to be reported.
    abbrev pub IsEligible : List Text → Type 0
    IsEligible (_ ∷ mount ∷ fstype ∷ options ∷ _) =
        (starts_with fstype (codes "9p") ≡ false)
        × (any (λ option. same option (codes "ro")) (split b',' options) ≡ false)
        × (unescape_mount_point mount ≡ m)
        × (is_runtime_mount m ≡ false)
    IsEligible _ = ⊥

    round-Covered :
        (s : Disks) (fields : List Text)
        → Covers s
        → IsEligible fields
        → Covered (mount_round sys s fields)
    unfolding mount_round
    round-Covered s [] v x = absurd x
    round-Covered s (a ∷ []) v x = absurd x
    round-Covered s (a ∷ b ∷ []) v x = absurd x
    round-Covered s (a ∷ b ∷ c ∷ []) v x = absurd x
    round-Covered s (_ ∷ mount ∷ fstype ∷ options ∷ more) v (a, b, p, c) =
        elim (Bool-cases (any (λ seen. same seen m) s.seen)) [
          | inl d ↦ rw (a, b, p, c, d) (v d)
          | inr d ↦ rw (a, b, p, c, d, e) (add_disk-adds (with_seen s m) m usage h)
        ]

    disks_from-Covered :
        (before after : List Text) (line : Text) (s : Disks)
        → Covers s
        → IsEligible (split_whitespace line)
        → Covered (disks_from sys s (before ++ line ∷ after))
    unfolding disks_from
    disks_from-Covered [] after line s v x =
        disks_from-keeps after (mount_round sys s (split_whitespace line))
          (round-Covered s (split_whitespace line) v x)
    disks_from-Covered (other ∷ before) after line s v x =
        disks_from-Covered before after line (mount_round sys s (split_whitespace other))
          (mount_round-Covers s (split_whitespace other) v) x

    -- Where a line of the mounts names a mount point and is neither a 9p mount nor read-only, and
    -- the mount point is no runtime mount and has a usage with a total above zero, its device is
    -- reported, whatever lines stand before and after.
    pub contains-device_ids :
        (before after : List Text) (line : Text)
        → IsEligible (split_whitespace line)
        → contains (device_ids sys (disks sys (before ++ line ∷ after))) (device_of sys m) ≡ true
    unfolding disks any
    contains-device_ids before after line x =
        let start : Disks = record { seen = []; devices = []; disks = [] } in
        let lines = before ++ line ∷ after in
        subst (λ ds. contains ds (device_of sys m) ≡ true) (reported sys lines)
          (disks_from-Covered before after line start (λ q. absurd (cc q)) x)
