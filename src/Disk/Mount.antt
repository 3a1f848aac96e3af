-- ===== src/Disk/Mount.antt =====
-- Whether a disk is mounted: `mount_point_check` and `disk_dev_mount_state` of arch/arch-linux.c and
-- `disk_mount_allowed` of lib/diskscan.c. The file system is a parameter: the entries of
-- /proc/mounts and what `stat` says of a path. Texts are lists of characters.
use diskscan.Base.{
  ℕ, Bool, true, false, ◌&&◌, ◌||◌, not, Option, some, none, List, [], ◌∷◌, ◌==◌, ltb, ◌++◌,
  if◌then◌else◌,
}

pub data DiskMount : Type 0 where
  disk_not_mounted disk_mounted_ro disk_mounted_rw : DiskMount

-- The numbers of the enumeration, by which the states are compared.
abbrev pub mount_number : DiskMount → ℕ
mount_number disk_not_mounted = 0
mount_number disk_mounted_ro = 1
mount_number disk_mounted_rw = 2

-- The entries of `struct mntent` and of `struct stat` that are used.
pub record Mntent : Type 0 where
  pub mnt_fsname : List ℕ
  pub mnt_opts : List ℕ

pub record Stat : Type 0 where
  pub is_blk : Bool
  pub st_rdev : ℕ

-- The delimiters `, \t\r\n` of the options.
abbrev pub is_delimiter : ℕ → Bool
is_delimiter c = c == 44 || (c == 32 || (c == 9 || (c == 13 || c == 10)))

-- The tokens that repeated calls of `strtok` give; `cur` is the token so far.
unfoldable pub tokens : List ℕ → List ℕ → List (List ℕ)
tokens [] cur = elim cur [ [] ↦ [] | c ∷ w ↦ (c ∷ w) ∷ [] ]
tokens (c ∷ s) cur =
    let at_end = tokens s [] in
    let within = tokens s (cur ++ c ∷ []) in
    if is_delimiter c then elim cur [ [] ↦ at_end | d ∷ w ↦ (d ∷ w) ∷ at_end ] else within

abbrev pub same_text : List ℕ → List ℕ → Bool
same_text [] [] = true
same_text [] (b ∷ bs) = false
same_text (a ∷ rest) [] = false
same_text (a ∷ rest) (b ∷ bs) = a == b && same_text rest bs

unfoldable pub check_options : List (List ℕ) → DiskMount
check_options [] = disk_mounted_ro
check_options (opt ∷ opts) =
    let rest = check_options opts in
    if same_text opt (114 ∷ 119 ∷ []) then disk_mounted_rw else rest

unfoldable pub mount_point_check : Mntent → DiskMount
mount_point_check mnt = check_options (tokens mnt.mnt_opts [])

-- `strncmp(path, name, strlen(path)) == 0`: the name begins with the path.
abbrev pub is_prefix : List ℕ → List ℕ → Bool
is_prefix [] name = true
is_prefix (c ∷ path) [] = false
is_prefix (c ∷ path) (d ∷ name) = c == d && is_prefix path name

abbrev pub full_path : List ℕ → Bool
full_path [] = false
full_path (c ∷ name) = c == 47

unfoldable pub raise : DiskMount → DiskMount → DiskMount
raise state cur_state =
    if ltb (mount_number state) (mount_number cur_state) then cur_state else state

module _ (stat : List ℕ → Option Stat) where
  -- The state after one entry.
  unfoldable pub mount_entry : List ℕ → Stat → DiskMount → Mntent → DiskMount
  mount_entry path dev_st state mnt =
      if not (full_path mnt.mnt_fsname)
      then state
      else if is_prefix path mnt.mnt_fsname
      then raise state (mount_point_check mnt)
      else elim (stat mnt.mnt_fsname) [
        | none ↦ state
        | some st ↦
            if not st.is_blk
            then state
            else if dev_st.st_rdev == st.st_rdev
            then raise state (mount_point_check mnt)
            else state
      ]

  unfoldable pub mount_entries : List ℕ → Stat → DiskMount → List Mntent → DiskMount
  mount_entries path dev_st state [] = state
  mount_entries path dev_st state (mnt ∷ mnts) =
      mount_entries path dev_st (mount_entry path dev_st state mnt) mnts

  -- `mounts` is `none` where /proc/mounts cannot be opened.
  unfoldable pub disk_dev_mount_state : Option (List Mntent) → List ℕ → DiskMount
  disk_dev_mount_state none path = disk_mounted_rw
  disk_dev_mount_state (some mnts) path = elim (stat path) [
    | none ↦ disk_mounted_rw
    | some dev_st ↦
        if not dev_st.is_blk
        then disk_mounted_rw
        else mount_entries path dev_st disk_not_mounted mnts
  ]

  unfoldable pub disk_mount_allowed : Option (List Mntent) → List ℕ → DiskMount → Bool
  disk_mount_allowed mounts path allowed_mount =
      not (ltb (mount_number allowed_mount) (mount_number (disk_dev_mount_state mounts path)))
