-- ===== src/Cli/Accepted.antt =====
-- The options that `parse_args` of cli/cli.c accepts.
use diskscan.Base.{
  ℕ, zero, suc, ◌*◌, ◌<◌, ◌≤◌, ◌≡◌, ◌≢◌, refl, ap, ◌∙◌, Bool, true, false, not, ◌||◌, some, List,
  [], ◌∷◌, ◌==◌, slt64, get_elem?, arith, Bool-cases, Option-cases, inl, inr, Ensures, nothing,
  value, Ensures-if_of, Ensures-elim,
}
use mathlib.Core.Option.{some-injective}
use diskscan.Scan.Types.{ScanMode, scan_mode_unknown, scan_mode_seq, scan_mode_random}
use diskscan.Disk.Mount.{disk_not_mounted}
use diskscan.Cli.Options.{
  Number, suffix_factor, str_to_scan_size, Opt, opt_verbose, opt_fix, opt_force_mounted,
  opt_force_mounted_rw, opt_unknown, opt_scan, opt_size, opt_output, opt_raw_log, Options, Parsed,
  mode_or_seq, parse_opt, parse_opts, check_args, parse_args, default_options,
}

-- 32 MiB
abbrev pub max_scan_size : ℕ
max_scan_size = 32 * 1024 * 1024

pub str_to_scan_size-le :
    (strtol : List ℕ → Number) (str : List ℕ) → str_to_scan_size strtol str ≤ max_scan_size
unfolding str_to_scan_size
str_to_scan_size-le strtol str =
    let r = strtol str in
    elim (Bool-cases (r.failed || not (slt64 0 r.val))) [
      | inl bad ↦ rw bad (omega arith)
      | inr good ↦ elim (Option-cases (suffix_factor r.rest)) [
        | inl e ↦ rw (good, e) (omega arith)
        | inr (f, e) ↦ rw (good, e) (ground arith)
      ]
    ]

module _ (strtol : List ℕ → Number) (same_nocase : List ℕ → List ℕ → Bool) where
  -- What holds between any two options.
  record Sound (p : Parsed) : Type 0 where
    size : p.opts.scan_size ≤ max_scan_size
    mode : p.opts.mode ≢ scan_mode_unknown

  mode_or_seq-ne : (m : ScanMode) → mode_or_seq strtol same_nocase m ≢ scan_mode_unknown
  unfolding mode_or_seq
  mode_or_seq-ne scan_mode_unknown e = cc
  mode_or_seq-ne scan_mode_seq e = cc
  mode_or_seq-ne scan_mode_random e = cc

  parse_opt-Sound : {p : Parsed} (o : Opt) → Sound p → Sound (parse_opt strtol same_nocase p o)
  unfolding parse_opt
  parse_opt-Sound opt_verbose s = record { size = s.size; mode = s.mode }
  parse_opt-Sound opt_fix s = record { size = s.size; mode = s.mode }
  parse_opt-Sound opt_force_mounted s = record { size = s.size; mode = s.mode }
  parse_opt-Sound opt_force_mounted_rw s = record { size = s.size; mode = s.mode }
  parse_opt-Sound opt_unknown s = record { size = s.size; mode = s.mode }
  parse_opt-Sound (opt_scan t) s = record { size = s.size; mode = mode_or_seq-ne _ }
  parse_opt-Sound (opt_size t) s = record { size = str_to_scan_size-le strtol t; mode = s.mode }
  parse_opt-Sound (opt_output t) s = record { size = s.size; mode = s.mode }
  parse_opt-Sound (opt_raw_log t) s = record { size = s.size; mode = s.mode }

  parse_opts-Sound :
      (args : List Opt) (p : Parsed) → Sound p → Sound (parse_opts strtol same_nocase p args)
  unfolding parse_opts
  parse_opts-Sound [] p s = s
  parse_opts-Sound (o ∷ args) p s = parse_opts-Sound args _ (parse_opt-Sound o s)

  unknown_step :
      (p : Parsed) (o : Opt) → p.unknown ≡ true → (parse_opt strtol same_nocase p o).unknown ≡ true
  unfolding parse_opt
  unknown_step p opt_verbose e = e
  unknown_step p opt_fix e = e
  unknown_step p opt_force_mounted e = e
  unknown_step p opt_force_mounted_rw e = e
  unknown_step p opt_unknown e = refl
  unknown_step p (opt_scan t) e = e
  unknown_step p (opt_size t) e = e
  unknown_step p (opt_output t) e = e
  unknown_step p (opt_raw_log t) e = e

  unknown_kept :
      (args : List Opt) (p : Parsed)
      → p.unknown ≡ true
      → (parse_opts strtol same_nocase p args).unknown ≡ true
  unfolding parse_opts
  unknown_kept [] p e = e
  unknown_kept (o ∷ args) p e = unknown_kept args _ (unknown_step p o e)

  unknown_seen :
      (args : List Opt) (p : Parsed) (i : ℕ)
      → get_elem? args i ≡ some opt_unknown
      → (parse_opts strtol same_nocase p args).unknown ≡ true
  unfolding parse_opts parse_opt
  unknown_seen [] p i e = cc
  unknown_seen (o ∷ args) p zero e =
      let same = some-injective o opt_unknown e in rw same (unknown_kept args _ refl)
  unknown_seen (o ∷ args) p (suc i) e = unknown_seen args _ i e

  unforced_step :
      (p : Parsed) (o : Opt)
      → o ≢ opt_force_mounted
      → o ≢ opt_force_mounted_rw
      → (parse_opt strtol same_nocase p o).allowed_mount ≡ p.allowed_mount
  unfolding parse_opt
  unforced_step p opt_verbose a b = refl
  unforced_step p opt_fix a b = refl
  unforced_step p opt_force_mounted a b = absurd (a refl)
  unforced_step p opt_force_mounted_rw a b = absurd (b refl)
  unforced_step p opt_unknown a b = refl
  unforced_step p (opt_scan t) a b = refl
  unforced_step p (opt_size t) a b = refl
  unforced_step p (opt_output t) a b = refl
  unforced_step p (opt_raw_log t) a b = refl

  -- None of the options is one of those that force.
  abbrev pub Unforced : List Opt → Type 0
  Unforced args =
      (i : ℕ)
      → (get_elem? args i ≢ some opt_force_mounted) × (get_elem? args i ≢ some opt_force_mounted_rw)

  unforced :
      (args : List Opt) (p : Parsed)
      → Unforced args
      → (parse_opts strtol same_nocase p args).allowed_mount ≡ p.allowed_mount
  unfolding parse_opts
  unforced [] p u = refl
  unforced (o ∷ args) p u =
      let (ro, rw_) = u 0 in
      unforced args _ (λ i. u (suc i))
      ∙ unforced_step p o (λ e. ro (ap some e)) (λ e. rw_ (ap some e))

  -- The options of a scan that starts: one path, all options known, a size that is neither zero nor
  -- above 32 MiB, one of the two modes, and a mounted disk only where an option forces it.
  pub record Accepted (args : List Opt) (paths : List (List ℕ)) (o : Options) : Type 0 where
    pub path : paths ≡ o.disk_path ∷ []
    pub known : (i : ℕ) → get_elem? args i ≢ some opt_unknown
    pub size_min : 0 < o.scan_size
    pub size_max : o.scan_size ≤ max_scan_size
    pub mode : o.mode ≢ scan_mode_unknown
    pub mount : Unforced args → o.allowed_mount ≡ disk_not_mounted

  check_lem :
      (args : List Opt) (p : Parsed) (paths : List (List ℕ))
      → Sound p
      → ((i : ℕ) → get_elem? args i ≡ some opt_unknown → p.unknown ≡ true)
      → (Unforced args → p.allowed_mount ≡ disk_not_mounted)
      → Ensures (Accepted args paths) (check_args strtol same_nocase p paths)
  unfolding check_args
  check_lem args p [] s u m = nothing
  check_lem args p (path ∷ []) s u m =
      Ensures-if_of p.unknown (λ e. nothing)
        (λ e.
          Ensures-if_of (p.opts.scan_size == 0) (λ z. nothing)
            (λ z. value _ (record {
              path = refl;
              known = λ i at. clash e (u i at);
              size_min = ground (arith, z);
              size_max = s.size;
              mode = s.mode;
              mount = m;
            })))
    where
      clash : {b : Bool} → b ≡ false → ¬ (b ≡ true)
      clash e f = cc
  check_lem args p (path ∷ more ∷ paths) s u m = nothing

  -- What `parse_args` accepts from the defaults of `diskscan_cli` is as a scan needs it.
  pub parse_args-Accepted :
      (args : List Opt) (paths : List (List ℕ)) {o : Options}
      → parse_args strtol same_nocase args paths default_options ≡ some o
      → Accepted args paths o
  unfolding parse_args
  parse_args-Accepted args paths e =
      Ensures-elim _
        (check_lem args _ paths
          (parse_opts-Sound args _ (record { size = omega arith; mode = λ f. cc }))
          (λ i at. unknown_seen args _ i at) (λ u. unforced args _ u))
        e
