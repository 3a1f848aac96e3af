-- ===== src/Cli/Mounted.antt =====
-- The whole program on a mounted disk: cli/cli.c, lib/diskscan.c and arch/arch-linux.c together.
use mathlib.Core.Option.{some-injective}
use diskscan.Base.{
  ℕ, zero, suc, ◌<◌, ◌≡◌, refl, sym, ap, Bool, true, Option, some, List, [], ◌∷◌, get_elem?, arith,
  Bool-cases, Option-cases, inl, inr, Ensures, nothing, value, Ensures-if, Ensures-elim,
}
use diskscan.Scan.Types.{Disk, ScanMode}
use diskscan.Disk.Mount.{
  disk_not_mounted, Mntent, Stat, tokens, check_options, mount_point_check, mount_number, same_text,
}
use diskscan.Disk.MountState.{Concerns}
use diskscan.Disk.Open.{System}
use diskscan.Disk.Opened.{disk_open-mounted}
use diskscan.Cli.Options.{
  Number, Opt, opt_verbose, opt_fix, opt_force_mounted, opt_force_mounted_rw, opt_unknown, opt_scan,
  opt_size, opt_output, opt_raw_log, Options, Parsed, parse_opt, parse_opts, check_args, parse_args,
  default_options,
}
use diskscan.Cli.Accepted.{Unforced, parse_args-Accepted}
use diskscan.Cli.Main.{run_options, diskscan_cli}

check_options-pos : (opts : List (List ℕ)) → 0 < mount_number (check_options opts)
unfolding check_options
check_options-pos [] = omega arith
check_options-pos (opt ∷ opts) = elim (Bool-cases (same_text opt (114 ∷ 119 ∷ []))) [
  | inl e ↦ rw e (omega arith)
  | inr e ↦ rw e (check_options-pos opts)
]

mount_point_check-pos : (mnt : Mntent) → 0 < mount_number (mount_point_check mnt)
unfolding mount_point_check
mount_point_check-pos mnt = check_options-pos (tokens mnt.mnt_opts [])

module _ (strtol : List ℕ → Number) (same_nocase : List ℕ → List ℕ → Bool) where
  fix_step :
      (p : Parsed) (o : Opt)
      → p.opts.fix ≡ true
      → (parse_opt strtol same_nocase p o).opts.fix ≡ true
  unfolding parse_opt
  fix_step p opt_verbose e = e
  fix_step p opt_fix e = refl
  fix_step p opt_force_mounted e = e
  fix_step p opt_force_mounted_rw e = e
  fix_step p opt_unknown e = e
  fix_step p (opt_scan t) e = e
  fix_step p (opt_size t) e = e
  fix_step p (opt_output t) e = e
  fix_step p (opt_raw_log t) e = e

  fix_kept :
      (args : List Opt) (p : Parsed)
      → p.opts.fix ≡ true
      → (parse_opts strtol same_nocase p args).opts.fix ≡ true
  unfolding parse_opts
  fix_kept [] p e = e
  fix_kept (o ∷ args) p e = fix_kept args _ (fix_step p o e)

  fix_seen :
      (args : List Opt) (p : Parsed) (i : ℕ)
      → get_elem? args i ≡ some opt_fix
      → (parse_opts strtol same_nocase p args).opts.fix ≡ true
  unfolding parse_opts parse_opt
  fix_seen [] p i e = cc
  fix_seen (o ∷ args) p zero e =
      let same = some-injective o opt_fix e in rw same (fix_kept args _ refl)
  fix_seen (o ∷ args) p (suc i) e = fix_seen args _ i e

  check_fix :
      (p : Parsed) (paths : List (List ℕ))
      → p.opts.fix ≡ true
      → Ensures (λ o. o.fix ≡ true) (check_args strtol same_nocase p paths)
  unfolding check_args
  check_fix p [] e = nothing
  check_fix p (path ∷ []) e = Ensures-if _ nothing (Ensures-if _ nothing (value _ e))
  check_fix p (path ∷ more ∷ paths) e = nothing

  parse_args-fix :
      (args : List Opt) (paths : List (List ℕ)) (i : ℕ) {o : Options}
      → get_elem? args i ≡ some opt_fix
      → parse_args strtol same_nocase args paths default_options ≡ some o
      → o.fix ≡ true
  unfolding parse_args
  parse_args-fix args paths i at e = Ensures-elim _ (check_fix _ paths (fix_seen args _ i at)) e

head_same : {a b : List ℕ} → a ∷ [] ≡ b ∷ [] → b ≡ a
head_same {a} e = sym (ap (λ xs. first xs) e)
  where
    first : List (List ℕ) → List ℕ
    first [] = a
    first (x ∷ xs) = x

module _ {K H : Type 0} (sys : System K H) (strtol : List ℕ → Number)
    (same_nocase : List ℕ → List ℕ → Bool) (fopen : List ℕ → Bool)
    (scan : Disk H → K → ScanMode → ℕ → Option (ℕ × Disk H × K)) where
  run_options-mounted :
      (opts : Options) (path : List ℕ) (k : K) {dev_st : Stat} (mnts : List Mntent) (j : ℕ)
      {mnt : Mntent}
      → opts.disk_path ≡ path
      → opts.fix ≡ true
      → opts.allowed_mount ≡ disk_not_mounted
      → sys.stat path ≡ some dev_st
      → dev_st.is_blk ≡ true
      → sys.mounts ≡ some mnts
      → get_elem? mnts j ≡ some mnt
      → Concerns sys.stat path dev_st mnt
      → run_options sys strtol same_nocase fopen scan opts k ≡ some (1, k)
  unfolding run_options
  run_options-mounted opts path k mnts j {mnt} p f m st blk read at about =
      rw
        (
          p,
          f,
          m,
          disk_open-mounted sys k path 70 disk_not_mounted mnts j st blk read at about
              (mount_point_check-pos mnt),
        )
        refl

  -- Called to fix one disk, with no option that forces, the program returns 1 and does not touch a
  -- block device that some readable entry of the mounts concerns, whatever the other options are.
  pub diskscan_cli-mounted :
      (args : List Opt) (path : List ℕ) (k : K) {dev_st : Stat} (mnts : List Mntent) (i j : ℕ)
      {mnt : Mntent}
      → get_elem? args i ≡ some opt_fix
      → Unforced strtol same_nocase args
      → sys.stat path ≡ some dev_st
      → dev_st.is_blk ≡ true
      → sys.mounts ≡ some mnts
      → get_elem? mnts j ≡ some mnt
      → Concerns sys.stat path dev_st mnt
      → diskscan_cli sys strtol same_nocase fopen scan args (path ∷ []) k ≡ some (1, k)
  unfolding diskscan_cli
  diskscan_cli-mounted args path k mnts i j fix free st blk read at about =
      elim (Option-cases (parse_args strtol same_nocase args (path ∷ []) default_options)) [
        | inl e ↦ rw (diskscan_cli, e) refl
        | inr (o, e) ↦
            let accepted = parse_args-Accepted strtol same_nocase args (path ∷ []) e in
            rw (diskscan_cli, e)
              (run_options-mounted o path k mnts j (head_same accepted.path)
                (parse_args-fix strtol same_nocase args (path ∷ []) i fix e) (accepted.mount free)
                st blk read at about)
      ]
