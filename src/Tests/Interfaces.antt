-- ===== src/Tests/Interfaces.antt =====
-- Runs of the helpers for Linux interfaces on a small kernel.
use canbus.Prelude.{
  ℕ, ◌≡◌, refl, arith, true, false, none, some, List, [], ◌∷◌, ok, err, errno, bad_name,
  txqueuelen_failed, needs_admin, if◌then◌else◌,
}
use canbus.Prelude.Texts.{codes}
use canbus.Interface.{
  is_interface_up, set_interface_up, set_interface_down, is_bad_name, CanOptions, pos,
  configure_linux_can_interface, require_root_or_cap_net_admin,
}
use canbus.Interface.Flags.{Changed, set_interface}
use canbus.Interface.Flags.Changes.{set_interface-Changed}
use canbus.Interface.Descriptors.{no_descriptor_left}
use canbus.Interface.Commands.{run_all, commands, configure-run_all}
use canbus.Tests.Kernels.{
  desk, small_kernel, is_open, small_kernel-HasDescriptors, small_kernel-HasDevices,
}

abbrev can0 : List ℕ
can0 = codes "can0"

up_then_asked :
    let d = (set_interface_up small_kernel can0 (desk 0)).0 in
    ((is_interface_up small_kernel can0 (desk 0)).1 ≡ ok false)
    × ((is_interface_up small_kernel can0 d).1 ≡ ok true)
unfolding set_interface_up is_interface_up
up_then_asked = (refl, refl)

-- A name of 16 bytes leaves no room for the zero.
long_name : (set_interface_up small_kernel (codes "a-name-too-long!") (desk 0)).1 ≡ err bad_name
unfolding set_interface_up
long_name = refl

set_interface-Changed_example :
    Changed
      (λ d. d.devices)
      (desk 0)
      can0
      (codes "can1")
      1
      (set_interface small_kernel true can0 (desk 0))
set_interface-Changed_example =
    set_interface-Changed small_kernel (λ d. d.devices) true can0 (codes "can1") (desk 0)
      small_kernel-HasDevices (λ e. ground (arith, e))

no_descriptor_left_example :
    (is_open (is_interface_up small_kernel can0 (desk 0)).0 3 ≡ false)
    × (is_open (set_interface_up small_kernel can0 (desk 0)).0 3 ≡ false)
    × (is_open (set_interface_down small_kernel can0 (desk 0)).0 3 ≡ false)
no_descriptor_left_example =
    no_descriptor_left small_kernel is_open can0 (desk 0) 3 small_kernel-HasDescriptors

abbrev fast : CanOptions
fast = record { bitrate = some 500000; restart_ms = none; tx_queue_len = some (pos 1000) }

configure-run_all_example : configure_linux_can_interface small_kernel can0 fast (desk 0) ≡ (
    if is_bad_name can0
    then (desk 0, err bad_name)
    else run_all small_kernel (commands can0 fast) (desk 0))
configure-run_all_example = configure-run_all small_kernel can0 fast (desk 0)

commands_run :
    ((configure_linux_can_interface small_kernel can0 fast (desk 0)).0).log
    ≡ (codes "ip"
        ∷ codes "link"
        ∷ codes "set"
        ∷ codes "dev"
        ∷ can0
        ∷ codes "txqueuelen"
        ∷ codes "1000"
        ∷ [])
      ∷ (codes "ip"
          ∷ codes "link"
          ∷ codes "set"
          ∷ codes "dev"
          ∷ can0
          ∷ codes "type"
          ∷ codes "can"
          ∷ codes "bitrate"
          ∷ codes "500000"
          ∷ [])
      ∷ []
unfolding configure_linux_can_interface
commands_run = refl

-- EPERM gets the advice through the error that wraps it.
advice :
    require_root_or_cap_net_admin (some (txqueuelen_failed (errno 1)))
    ≡ some (needs_admin (txqueuelen_failed (errno 1)))
unfolding require_root_or_cap_net_admin
advice = refl
