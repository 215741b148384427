-- ===== src/Interface/Commands.antt =====
-- The commands that ConfigureLinuxCANInterface runs, and its errors.
use canbus.Prelude.{
  ℕ, ◌≡◌, refl, ◌∙◌, ap, arith, inl, inr, Bool, true, false, ◌&&◌, Option, none, some, List, [],
  ◌∷◌, ◌++◌, ◌==◌, if◌then◌else◌, IsU32, Error, Result, ok, err, bad_name, txqueuelen_failed,
  can_failed, needs_admin, Bool-cases,
}
use canbus.Prelude.Runs.{Run, continue}
use canbus.Prelude.Texts.{codes, decimal}
use canbus.Prelude.Texts.Reading.{read_from, read_from-digits}
use canbus.Kernel.{Kernel}
use canbus.Interface.{
  is_bad_name, is_perm, require_root_or_cap_net_admin, ℤ, decimal_int, CanOptions, option_args,
  checked, set_queue_len, set_can, configure_linux_can_interface,
}

-- A command, and what an error of it is wrapped in.
abbrev pub Command : Type 0
Command = List (List ℕ) × (Error → Error)

abbrev pub ip_set : List ℕ → List (List ℕ) → List (List ℕ)
ip_set name args = codes "ip" ∷ codes "link" ∷ codes "set" ∷ codes "dev" ∷ name ∷ args

abbrev pub queue_commands : List ℕ → Option ℤ → List Command
queue_commands name none = []
queue_commands name (some n) =
    (ip_set name (codes "txqueuelen" ∷ decimal_int n ∷ []), txqueuelen_failed) ∷ []

-- What is set by one flag.
abbrev pub setting : List ℕ → Option ℕ → List (List ℕ)
setting flag none = []
setting flag (some n) = flag ∷ decimal n ∷ []

abbrev pub can_settings : Option ℕ → Option ℕ → List (List ℕ)
can_settings bitrate restart_ms =
    setting (codes "bitrate") bitrate ++ setting (codes "restart-ms") restart_ms

abbrev pub can_commands : List ℕ → List (List ℕ) → List Command
can_commands name [] = []
can_commands name (arg ∷ args) =
    (ip_set name (codes "type" ∷ codes "can" ∷ arg ∷ args), can_failed) ∷ []

-- One command for the length of the queue, if it is given, and then one for all CAN settings, if
-- there are any.
abbrev pub commands : List ℕ → CanOptions → List Command
commands name opts =
    queue_commands name opts.tx_queue_len
    ++ can_commands name (can_settings opts.bitrate opts.restart_ms)

-- The error, with the advice if it comes from EPERM.
abbrev pub guided : Error → (Error → Error) → Error
guided e wrap = if is_perm e then needs_admin (wrap e) else wrap e

-- The commands one after the other, up to the first that fails.
abbrev pub run_all : {W : Type 0} → Kernel W → List Command → Run W (Unit {0})
run_all k [] w = (w, ok tt)
run_all k ((args, wrap) ∷ cs) w =
    let rest = run_all k cs (k.exec args w).0 in
    elim (k.exec args w).1 [ ok u ↦ rest | err e ↦ ((k.exec args w).0, err (guided e wrap)) ]

module _ {W : Type 0} (wrap : Error → Error)
    (same : (e : Error) → is_perm (wrap e) ≡ is_perm e) where
  checked_last :
      (r : W × Result (Unit {0}))
      → checked wrap r ≡ (elim r.1 [ ok u ↦ (r.0, ok tt) | err e ↦ (r.0, err (guided e wrap)) ])
  unfolding checked require_root_or_cap_net_admin
  checked_last (w, ok u) = refl
  checked_last (w, err e) = elim (Bool-cases (is_perm e)) [
    | inl p ↦ rw (same e ∙ p, p) refl
    | inr p ↦ rw (same e ∙ p, p) refl
  ]

  checked_step :
      (f g : Run W (Unit {0})) (r : W × Result (Unit {0}))
      → ((w : W) → f w ≡ g w)
      → continue (λ _. f) (checked wrap r)
        ≡ (elim r.1 [ ok u ↦ g r.0 | err e ↦ (r.0, err (guided e wrap)) ])
  checked_step f g (w, ok u) q = unfold checked in q w
  checked_step f g (w, err e) q = rw (checked_last (w, err e)) refl

module _ {W : Type 0} (k : Kernel W) where
  set_can-run_all :
      (name : List ℕ) (bitrate restart_ms : Option ℕ) (w : W)
      → set_can k name bitrate restart_ms w
        ≡ run_all k (can_commands name (can_settings bitrate restart_ms)) w
  unfolding set_can option_args is_perm
  set_can-run_all name none none w = refl
  set_can-run_all name (some b) none w = checked_last can_failed (λ e. refl) (k.exec _ w)
  set_can-run_all name none (some r) w = checked_last can_failed (λ e. refl) (k.exec _ w)
  set_can-run_all name (some b) (some r) w = checked_last can_failed (λ e. refl) (k.exec _ w)

  -- ConfigureLinuxCANInterface refuses a bad name and runs nothing. For any other it runs the
  -- commands for the options that are given, the length of the queue first and then bitrate and
  -- restart delay in one command, up to the first that fails, whose error it returns, wrapped by
  -- what failed and, where it comes from EPERM, by the advice about privileges.
  pub configure-run_all :
      (name : List ℕ) (opts : CanOptions) (w : W)
      → configure_linux_can_interface k name opts w
        ≡ (if is_bad_name name then (w, err bad_name) else run_all k (commands name opts) w)
  unfolding configure_linux_can_interface set_queue_len is_perm
  configure-run_all name opts w = elim (Bool-cases (is_bad_name name)) [
    | inl e ↦ rw e refl
    | inr e ↦ rw e (by_length opts.tx_queue_len)
  ]
    where
      by_length :
          (n : Option ℤ)
          → continue (λ _. set_can k name opts.bitrate opts.restart_ms) (set_queue_len k name n w)
            ≡ run_all k
                (queue_commands name n
                  ++ can_commands name (can_settings opts.bitrate opts.restart_ms))
                w
      by_length none = set_can-run_all name opts.bitrate opts.restart_ms w
      by_length (some n) =
          checked_step txqueuelen_failed (λ e. refl) _ _ (k.exec _ w)
            (set_can-run_all name opts.bitrate opts.restart_ms)

abbrev pub same_text : List ℕ → List ℕ → Bool
same_text [] [] = true
same_text [] (d ∷ ds) = false
same_text (c ∷ cs) [] = false
same_text (c ∷ cs) (d ∷ ds) = (c == d) && same_text cs ds

-- A reader of the arguments as `ip` takes them: the number behind a flag.
unfoldable pub read_setting : List ℕ → List (List ℕ) → Option ℕ
read_setting flag [] = none
read_setting flag (a ∷ []) = none
read_setting flag (a ∷ value ∷ rest) =
    let later = read_setting flag rest in
    if same_text a flag then some (read_from 10 0 value) else later

read-decimal : (n : ℕ) → IsU32 n → read_from 10 0 (decimal n) ≡ n
unfolding decimal
read-decimal n h = read_from-digits 10 19 n (omega arith) (omega arith) (omega arith)

abbrev pub IsSmall : Option ℕ → Type 0
IsSmall none = Unit {0}
IsSmall (some n) = IsU32 n

-- The arguments that are appended for the two CAN options carry them: read as `ip` reads them, they
-- give each option that was given, with its number, and neither of those that were not.
pub read-option_args :
    (bitrate restart_ms : Option ℕ)
    → IsSmall bitrate
    → IsSmall restart_ms
    → let args =
        option_args (codes "bitrate") bitrate ++ option_args (codes "restart-ms") restart_ms in
      (read_setting (codes "bitrate") args ≡ bitrate)
      × (read_setting (codes "restart-ms") args ≡ restart_ms)
unfolding option_args read_setting
read-option_args none none hb hr = (refl, refl)
read-option_args (some b) none hb hr = (ap some (read-decimal b hb), refl)
read-option_args none (some r) hb hr = (refl, ap some (read-decimal r hr))
read-option_args (some b) (some r) hb hr =
    (ap some (read-decimal b hb), ap some (read-decimal r hr))
