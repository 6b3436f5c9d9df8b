-- ===== src/Proc/PerCpu/Tests.antt =====
-- kernel/src/proc/percpu.rs: the theorem at a machine whose CPUs 0 and 2 are online.
use hyperion_os.Base.{refl}
use hyperion_os.Proc.PerCpu.{
  register_boot_cpu, registered_count, online_count, count_ones, online_mask,
}
use hyperion_os.Base.{◌≡◌, true}
use hyperion_os.Proc.PerCpu.{Cpus, boot, mark_online, online_cpus, listed, mark_online_lem}

abbrev two_online : Cpus
two_online = mark_online 2 (mark_online 0 boot)

mark_online_lem_example : listed 2 (online_cpus two_online) ≡ true
mark_online_lem_example = mark_online_lem 2 2 (mark_online 0 boot)

registered : registered_count (register_boot_cpu 9 (register_boot_cpu 1 boot)) ≡ 1
unfolding registered_count register_boot_cpu boot
registered = refl

counted : online_count two_online ≡ 2
unfolding online_count count_ones online_mask mark_online boot
counted = refl
