-- ===== src/Disk/MountState.antt =====
-- Which mounts keep a disk from being fixed: `disk_dev_mount_state` of arch/arch-linux.c against the
-- entries of /proc/mounts one by one.
use diskscan.Base.{
  ℕ, zero, suc, ◌≤◌, ◌≡◌, ◌≢◌, ◌↔◌, inl, inr, refl, sym, ap, ap₂, ◌∙◌, Bool, true, false, ◌&&◌, not,
  Option, some, none, List, [], ◌∷◌, ◌++◌, ◌==◌, ltb, get_elem?, arith, Bool-cases, Option-cases,
  max,
}
use mathlib.Core.Option.{some-injective, some-ne-none}
use mathlib.Core.Path.{subst}
use diskscan.Disk.Mount.{
  DiskMount, disk_not_mounted, disk_mounted_ro, disk_mounted_rw, mount_number, Mntent, Stat,
  mount_point_check, is_prefix, full_path, raise, mount_entry, mount_entries, disk_dev_mount_state,
  disk_mount_allowed,
}

pub raise_lem : (a b : DiskMount) → mount_number (raise a b) ≡ max (mount_number a) (mount_number b)
unfolding raise
raise_lem a b = elim (Bool-cases (ltb (mount_number a) (mount_number b))) [
  | inl e ↦ rw e (ground (arith, e))
  | inr e ↦ rw e (ground (arith, e))
]

prefix_sound :
    (path name : List ℕ) → is_prefix path name ≡ true → (rest : List ℕ) × (name ≡ path ++ rest)
prefix_sound [] name e = (name, refl)
prefix_sound (c ∷ path) [] e = cc
prefix_sound (c ∷ path) (d ∷ name) e =
    let (same, deeper) = and_parts (c == d) e in
    let (rest, eq) = prefix_sound path name deeper in (rest, ap₂ ◌∷◌ (ground (arith, same)) eq)
  where
    and_parts : (a : Bool) {b : Bool} → (a && b) ≡ true → (a ≡ true) × (b ≡ true)
    and_parts true e = (refl, e)
    and_parts false e = cc

prefix_complete : (path rest : List ℕ) → is_prefix path (path ++ rest) ≡ true
prefix_complete [] rest = refl
prefix_complete (c ∷ path) rest =
    let same : (c == c) ≡ true = ground arith in rw (same, prefix_complete path rest) refl

module _ (stat : List ℕ → Option Stat) (path : List ℕ) (dev_st : Stat) where
  -- The entry is about the disk: its full path begins with the disk's, or leads to the same block
  -- device.
  pub data Concerns (mnt : Mntent) : Type 0 where
    named :
        (rest : List ℕ)
        → full_path mnt.mnt_fsname ≡ true
        → mnt.mnt_fsname ≡ path ++ rest
        → Concerns mnt
    device :
        (st : Stat)
        → full_path mnt.mnt_fsname ≡ true
        → stat mnt.mnt_fsname ≡ some st
        → st.is_blk ≡ true
        → dev_st.st_rdev ≡ st.st_rdev
        → Concerns mnt

  data Entry (state : DiskMount) (mnt : Mntent) : DiskMount → Type 0 where
    counted : Concerns mnt → Entry state mnt (raise state (mount_point_check mnt))
    passed_over : ¬ (Concerns mnt) → Entry state mnt state

  unnamed :
      (mnt : Mntent)
      → is_prefix path mnt.mnt_fsname ≡ false
      → ((st : Stat)
          → stat mnt.mnt_fsname ≡ some st
          → st.is_blk ≡ true
          → dev_st.st_rdev ≢ st.st_rdev)
      → ¬ (Concerns mnt)
  unnamed mnt missed other (named rest full e) = let hit = prefix_complete path rest in cc
  unnamed mnt missed other (device st full e blk same) = other st e blk same

  nameless : (mnt : Mntent) → full_path mnt.mnt_fsname ≡ false → ¬ (Concerns mnt)
  nameless mnt missed (named _ full _) = cc
  nameless mnt missed (device _ full _ _ _) = cc

  not_block :
      {o : Option Stat} {a b : Stat}
      → o ≡ some a
      → o ≡ some b
      → a.is_blk ≡ false
      → ¬ (b.is_blk ≡ true)
  not_block {a} {b} e f missed hit =
      let same = some-injective a b (sym e ∙ f) in let blk = ap (λ s. s.is_blk) same in cc

  other_device :
      {o : Option Stat} {a b : Stat}
      → o ≡ some a
      → o ≡ some b
      → (dev_st.st_rdev == a.st_rdev) ≡ false
      → dev_st.st_rdev ≢ b.st_rdev
  other_device {a} {b} e f missed hit =
      let same = ap (λ s. s.st_rdev) (some-injective a b (sym e ∙ f)) in
      ground (arith, missed, hit, same)

  entry_lem :
      (state : DiskMount) (mnt : Mntent) → Entry state mnt (mount_entry stat path dev_st state mnt)
  unfolding mount_entry
  entry_lem state mnt = elim (Bool-cases (full_path mnt.mnt_fsname)) [
    | inr partial ↦ rw partial (passed_over (nameless mnt partial))
    | inl full ↦ elim (Bool-cases (is_prefix path mnt.mnt_fsname)) [
      | inl begins ↦
          let (rest, e) = prefix_sound path mnt.mnt_fsname begins in
          rw (full, begins) (counted (named rest full e))
      | inr other ↦ elim (Option-cases (stat mnt.mnt_fsname)) [
        | inl e ↦ rw (full, other, e) (passed_over (unnamed mnt other (λ st f blk same. cc)))
        | inr (st, e) ↦ elim (Bool-cases st.is_blk) [
          | inr char ↦
              rw (full, other, e, char)
                (passed_over (unnamed mnt other (λ st' f blk same. not_block e f char blk)))
          | inl blk ↦ elim (Bool-cases (dev_st.st_rdev == st.st_rdev)) [
            | inl eq ↦
                rw (full, other, e, blk, eq) (counted (device st full e blk (ground (arith, eq))))
            | inr ne ↦
                rw (full, other, e, blk, ne)
                  (passed_over (unnamed mnt other (λ st' f blk' same. other_device e f ne same)))
          ]
        ]
      ]
    ]
  ]

  one_bound :
      {state : DiskMount} {mnt : Mntent} {r : DiskMount} (bound : ℕ)
      → Entry state mnt r
      → (mount_number r ≤ bound) ↔ (
          (mount_number state ≤ bound)
          × (Concerns mnt → mount_number (mount_point_check mnt) ≤ bound))
  one_bound {state} {mnt = mnt} bound (counted c) =
      let highest = raise_lem state (mount_point_check mnt) in
      (
        λ h. (omega (arith, h, highest), λ _. omega (arith, h, highest)),
        λ (h, k). let one = k c in omega (arith, h, one, highest),
      )
  one_bound bound (passed_over n) = (λ h. (h, λ c. absurd (n c)), λ (h, _). h)

  -- What the walk over the entries keeps below a bound.
  abbrev pub AllBelow : List Mntent → ℕ → Type 0
  AllBelow mnts bound =
      (i : ℕ) (mnt : Mntent)
      → get_elem? mnts i ≡ some mnt
      → Concerns mnt
      → mount_number (mount_point_check mnt) ≤ bound

  AllBelow-cons :
      (mnt : Mntent) (mnts : List Mntent) {bound : ℕ}
      → (Concerns mnt → mount_number (mount_point_check mnt) ≤ bound)
      → AllBelow mnts bound
      → AllBelow (mnt ∷ mnts) bound
  AllBelow-cons mnt mnts {bound} one rest zero m e c =
      let same = some-injective mnt m e in
      subst (λ x. Concerns x → mount_number (mount_point_check x) ≤ bound) same one c
  AllBelow-cons mnt mnts one rest (suc i) m e c = rest i m e c

  entries_bound :
      (mnts : List Mntent) (state : DiskMount) (bound : ℕ)
      → (mount_number (mount_entries stat path dev_st state mnts) ≤ bound)
        ↔ ((mount_number state ≤ bound) × AllBelow mnts bound)
  unfolding mount_entries
  entries_bound [] state bound = (λ h. (h, λ i mnt e. cc), λ (h, _). h)
  entries_bound (mnt ∷ mnts) state bound =
      let (there, back) = entries_bound mnts (mount_entry stat path dev_st state mnt) bound in
      let (one_there, one_back) = one_bound bound (entry_lem state mnt) in
      (
        λ h.
            let (now, later) = there h in
            let (low, own) = one_there now in (low, AllBelow-cons mnt mnts own later),
        λ (h, all). back (one_back (h, all 0 mnt refl), λ i m e. all (suc i) m e),
      )

known_state :
    (stat : List ℕ → Option Stat) (mnts : List Mntent) (path : List ℕ) {dev_st : Stat}
    → stat path ≡ some dev_st
    → dev_st.is_blk ≡ true
    → disk_dev_mount_state stat (some mnts) path
      ≡ mount_entries stat path dev_st disk_not_mounted mnts
unfolding disk_dev_mount_state
known_state stat mnts path e blk = rw (disk_dev_mount_state, e, blk) refl

-- Of a block device, with the mounts read, the check passes exactly if the state of each mount that
-- concerns the disk is among those allowed.
pub disk_mount_allowed-known :
    (stat : List ℕ → Option Stat) (mnts : List Mntent) (path : List ℕ) {dev_st : Stat}
    (allowed : DiskMount)
    → stat path ≡ some dev_st
    → dev_st.is_blk ≡ true
    → (disk_mount_allowed stat (some mnts) path allowed ≡ true)
      ↔ AllBelow stat path dev_st mnts (mount_number allowed)
unfolding disk_mount_allowed
disk_mount_allowed-known stat mnts path {dev_st} allowed e blk =
    let (there, back) =
      entries_bound stat path dev_st mnts disk_not_mounted (mount_number allowed) in
    let low : mount_number disk_not_mounted ≤ mount_number allowed = omega arith in
    rw (known_state stat mnts path e blk)
      (λ h. (there (ground (arith, h))).1, λ h. let below = back (low, h) in ground (arith, below))

unknown_state :
    (stat : List ℕ → Option Stat) (mounts : Option (List Mntent)) (path : List ℕ)
    → ((st : Stat) → stat path ≡ some st → st.is_blk ≡ true → mounts ≡ none)
    → disk_dev_mount_state stat mounts path ≡ disk_mounted_rw
unfolding disk_dev_mount_state
unknown_state stat none path h = refl
unknown_state stat (some mnts) path h = elim (Option-cases (stat path)) [
  | inl e ↦ rw (disk_dev_mount_state, e) refl
  | inr (st, e) ↦ elim (Bool-cases st.is_blk) [
    | inl blk ↦ absurd (some-ne-none mnts (h st e blk))
    | inr char ↦ rw (disk_dev_mount_state, e, char) refl
  ]
]

only_rw : (a : DiskMount) → (not (ltb (mount_number a) 2) ≡ true) ↔ (a ≡ disk_mounted_rw)
only_rw disk_not_mounted = (λ h. cc, λ h. cc)
only_rw disk_mounted_ro = (λ h. cc, λ h. cc)
only_rw disk_mounted_rw = (λ h. refl, λ h. refl)

-- Where the mounts cannot be read, or the path is no block device, only a scan that allows disks
-- mounted read-write passes.
pub disk_mount_allowed-unknown :
    (stat : List ℕ → Option Stat) (mounts : Option (List Mntent)) (path : List ℕ)
    (allowed : DiskMount)
    → ((st : Stat) → stat path ≡ some st → st.is_blk ≡ true → mounts ≡ none)
    → (disk_mount_allowed stat mounts path allowed ≡ true) ↔ (allowed ≡ disk_mounted_rw)
unfolding disk_mount_allowed
disk_mount_allowed-unknown stat mounts path allowed h =
    rw (unknown_state stat mounts path h) (only_rw allowed)
