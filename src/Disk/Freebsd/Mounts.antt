-- ===== src/Disk/Freebsd/Mounts.antt =====
-- The state that `disk_dev_mount_state` of arch/arch-freebsd.c gives, against the mounts one by one.
use diskscan.Base.{ℕ, ◌≤◌, ◌≡◌, ◌↔◌, refl, inl, inr, true, List, [], ◌∷◌, arith, Bool-cases}
use diskscan.Disk.Mount.{DiskMount, disk_not_mounted, mount_number, is_prefix}
use diskscan.Disk.MountState.{raise_lem}
use diskscan.Disk.Freebsd.{Statfs, statfs_state, statfs_entry, statfs_entries, freebsd_mount_state}

module _ (path : List ℕ) where
  -- If the mount is of a device whose name begins with the path, its state is up to the bound.
  abbrev pub Within : ℕ → Statfs → Type 0
  Within bound mnt =
      is_prefix path mnt.f_mntfromname ≡ true → mount_number (statfs_state mnt) ≤ bound

  abbrev pub AllWithin : ℕ → List Statfs → Type 0
  AllWithin bound [] = Unit {0}
  AllWithin bound (mnt ∷ mntbuf) = Within bound mnt × AllWithin bound mntbuf

  entry_bound :
      (state : DiskMount) (mnt : Statfs) (bound : ℕ)
      → (mount_number (statfs_entry path state mnt) ≤ bound)
        ↔ ((mount_number state ≤ bound) × Within bound mnt)
  unfolding statfs_entry
  entry_bound state mnt bound = elim (Bool-cases (is_prefix path mnt.f_mntfromname)) [
    | inl e ↦
        let highest = raise_lem state (statfs_state mnt) in
        rw e (
          (λ h. (omega (arith, h, highest), λ t. omega (arith, h, highest))),
          λ (h, k). let one = k refl in omega (arith, h, one, highest),
        )
    | inr e ↦ rw e ((λ h. (h, λ t. cc)), λ (h, k). h)
  ]

  entries_bound :
      (mnts : List Statfs) (state : DiskMount) (bound : ℕ)
      → (mount_number (statfs_entries path state mnts) ≤ bound)
        ↔ ((mount_number state ≤ bound) × AllWithin bound mnts)
  unfolding statfs_entries
  entries_bound [] state bound = (λ h. (h, tt), λ (h, t). h)
  entries_bound (mnt ∷ mnts) state bound =
      let (there, back) = entries_bound mnts (statfs_entry path state mnt) bound in
      let (one_there, one_back) = entry_bound state mnt bound in
      (
        λ h. let (now, later) = there h in let (low, own) = one_there now in (low, (own, later)),
        λ (h, (own, later)). back (one_back (h, own), later),
      )

  -- With mounts, the state is up to a bound exactly if that of each mount of a device whose name
  -- begins with the path is.
  pub freebsd_mount_state-bound :
      (mnt : Statfs) (mntbuf : List Statfs) (bound : ℕ)
      → (mount_number (freebsd_mount_state (mnt ∷ mntbuf) path) ≤ bound)
        ↔ AllWithin bound (mnt ∷ mntbuf)
  unfolding freebsd_mount_state
  freebsd_mount_state-bound mnt mntbuf bound =
      let (there, back) = entries_bound (mnt ∷ mntbuf) disk_not_mounted bound in
      (λ h. (there h).1, λ a. back (omega arith, a))
