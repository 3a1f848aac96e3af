-- ===== src/Cli/Options.antt =====
-- The options of cli/cli.c and `str_to_scan_mode` of lib/diskscan.c. `strtol`, `strcasecmp` and
-- `getopt_long` are the C library's: the first two are parameters, and the third gives the options in
-- their order and the arguments that are none.
use diskscan.Base.{
  ℕ, suc, ◌*◌, Bool, true, false, not, ◌||◌, Option, some, none, List, [], ◌∷◌, ltb, ◌==◌,
  if◌then◌else◌, u32, u64, slt64, codes,
}
use diskscan.Scan.Types.{ScanMode, scan_mode_unknown, scan_mode_seq, scan_mode_random}
use diskscan.Disk.Mount.{DiskMount, disk_not_mounted, disk_mounted_ro, disk_mounted_rw, same_text}

-- The number that `strtol` reads, as its pattern of 64 bits, whether it set `errno`, and the text
-- behind the number.
pub record Number : Type 0 where
  pub val : ℕ
  pub failed : Bool
  pub rest : List ℕ

-- The factor of a suffix.
unfoldable pub suffix_factor : List ℕ → Option ℕ
suffix_factor s =
    if same_text s []
    then some 1
    else if same_text s (codes "b") || same_text s (codes "B")
    then some 1
    else if same_text s (codes "k") || same_text s (codes "K")
    then some 1024
    else if same_text s (codes "m") || same_text s (codes "M")
    then some (1024 * 1024)
    else none

unfoldable pub str_to_scan_size : (List ℕ → Number) → List ℕ → ℕ
str_to_scan_size strtol str =
    let r = strtol str in
    if r.failed || not (slt64 0 r.val) then 0 else elim (suffix_factor r.rest) [
      | none ↦ 0
      | some factor ↦
          let retval = u32 (u64 (r.val * factor)) in
          if ltb (32 * 1024 * 1024) retval then 0 else retval
    ]

unfoldable pub str_to_scan_mode : (List ℕ → List ℕ → Bool) → List ℕ → ScanMode
str_to_scan_mode same_nocase s =
    if same_nocase s (codes "seq") || same_nocase s (codes "sequential")
    then scan_mode_seq
    else if same_nocase s (codes "random")
    then scan_mode_random
    else scan_mode_unknown

-- What `getopt_long` reports, with `optarg`; `opt_unknown` is its '?'.
pub data Opt : Type 0 where
  opt_verbose opt_fix opt_force_mounted opt_force_mounted_rw opt_unknown : Opt
  opt_scan opt_size opt_output opt_raw_log : List ℕ → Opt

pub record Options : Type 0 where
  pub disk_path : List ℕ
  pub verbose : ℕ
  pub fix : Bool
  pub mode : ScanMode
  pub scan_size : ℕ
  pub data_log_name : Option (List ℕ)
  pub data_log_raw_name : Option (List ℕ)
  pub allowed_mount : DiskMount

-- The options as the loop over them leaves them, with its two local variables.
pub record Parsed : Type 0 where
  pub opts : Options
  pub unknown : Bool
  pub allowed_mount : DiskMount

module _ (strtol : List ℕ → Number) (same_nocase : List ℕ → List ℕ → Bool) where
  unfoldable pub mode_or_seq : ScanMode → ScanMode
  mode_or_seq scan_mode_unknown = scan_mode_seq
  mode_or_seq scan_mode_seq = scan_mode_seq
  mode_or_seq scan_mode_random = scan_mode_random

  unfoldable pub parse_opt : Parsed → Opt → Parsed
  parse_opt p opt_verbose = record p { opts = record p.opts { verbose = suc p.opts.verbose } }
  parse_opt p opt_fix = record p { opts = record p.opts { fix = true } }
  parse_opt p opt_force_mounted = record p { allowed_mount = disk_mounted_ro }
  parse_opt p opt_force_mounted_rw = record p { allowed_mount = disk_mounted_rw }
  parse_opt p opt_unknown = record p { unknown = true }
  parse_opt p (opt_scan s) = record p {
    opts = record p.opts { mode = mode_or_seq (str_to_scan_mode same_nocase s) };
  }
  parse_opt p (opt_size s) = record p {
    opts = record p.opts { scan_size = str_to_scan_size strtol s };
  }
  parse_opt p (opt_output s) = record p { opts = record p.opts { data_log_name = some s } }
  parse_opt p (opt_raw_log s) = record p { opts = record p.opts { data_log_raw_name = some s } }

  unfoldable pub parse_opts : Parsed → List Opt → Parsed
  parse_opts p [] = p
  parse_opts p (o ∷ os) = parse_opts (parse_opt p o) os

  -- The checks behind the loop; `none` is the return value 1.
  unfoldable pub check_args : Parsed → List (List ℕ) → Option Options
  check_args p [] = none
  check_args p (path ∷ []) =
      if p.unknown
      then none
      else if p.opts.scan_size == 0
      then none
      else some (record p.opts { disk_path = path; allowed_mount = p.allowed_mount })
  check_args p (path ∷ more ∷ paths) = none

  unfoldable pub parse_args : List Opt → List (List ℕ) → Options → Option Options
  parse_args args paths opts =
      check_args
        (parse_opts
          (record {
            opts = record opts { scan_size = 64 * 1024 };
            unknown = false;
            allowed_mount = disk_not_mounted;
          })
          args)
        paths

-- `memset(&opts, 0, sizeof(opts))` and the defaults of `diskscan_cli`.
abbrev pub default_options : Options
default_options = record {
  disk_path = [];
  verbose = 0;
  fix = false;
  mode = scan_mode_seq;
  scan_size = 0;
  data_log_name = none;
  data_log_raw_name = none;
  allowed_mount = disk_not_mounted;
}
