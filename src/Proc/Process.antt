-- ===== src/Proc/Process.antt =====
-- kernel/src/proc/process.rs: the table of processes and the counter of their identifiers.
use hyperion_os.Base.{ℕ, ◌+◌, ◌%◌, ◌^◌, List, [], ◌∷◌, map, Option, none, some}
use hyperion_os.Base.Ord.{Name, nat_ord}
use hyperion_os.Base.BTreeMap.{BTreeMap, insert}
use hyperion_os.Mm.Vmm.{AddressSpace, new_unmaterialised}

abbrev pub Pid : Type 0
Pid = ℕ

pub record Process : Type 0 where
  pub pid : Pid
  pub name : Name
  pub aspace : AddressSpace

-- The statics `NEXT_PID` and `PROCESSES`.
pub record Processes : Type 0 where
  pub next_pid : Pid
  pub table : BTreeMap Pid Process

unfoldable pub boot : Processes
boot = record { next_pid = 1; table = [] }

unfoldable pub alloc_pid : Processes → Pid × Processes
alloc_pid s = (s.next_pid, record s { next_pid = (s.next_pid + 1) % 2 ^ 64 })

unfoldable pub new_kernel : Name → Processes → Process × Processes
new_kernel name s =
    let (pid, s') = alloc_pid s in
    (record { pid = pid; name = name; aspace = new_unmaterialised }, s')

-- The bytes of "kernel".
abbrev pub kernel_name : Name
kernel_name = 107 ∷ 101 ∷ 114 ∷ 110 ∷ 101 ∷ 108 ∷ []

unfoldable pub init : Processes → Processes
init s =
    let (kernel, s') = new_kernel kernel_name s in
    record s' { table = insert kernel.pid kernel s'.table }

-- The least key. `none` is the panic of `expect`.
unfoldable pub kernel_pid : Processes → Option Pid
kernel_pid s = elim s.table [ [] ↦ none | e ∷ rest ↦ some e.0 ]

unfoldable pub list : Processes → List (Pid × Name)
list s = map (λ e. (e.0, e.1.name)) s.table
