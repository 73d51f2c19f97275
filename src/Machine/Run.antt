-- ===== src/Machine/Run.antt =====
-- Running the machine of src/machine.c after its assembly.
use mathlib.Core.Option
use mathlib.Core.Option.{Option}
use mathlib.Core.Path.{subst}
use yan_os.Base.{ℕ, ◌≡◌, ◌≢◌, refl, sym, arith, none, some, List, [], ◌∷◌, Bool, false, is_null}
use yan_os.Status.{ok}
use yan_os.Ram.{Ram}
use yan_os.Ram.Laws.{IsValid, Owns}
use yan_os.Bus.{Bus}
use yan_os.Cpu.{Cpu}
use yan_os.Step
use yan_os.Step.Invariant.{IsWellFormed, step-IsWellFormed}
use yan_os.Step.Memory.{IsRamOf, step-IsRamOf}
use yan_os.Clint
use yan_os.Machine.{
  Link, null, own, other, Machine, check_machine, bus_of, with_bus, sample_devices, step, reached,
  init_with,
}
use yan_os.Machine.Wiring.{init_with-usable}

pub record IsRunnable (m : Machine) : Type 0 where
  pub checks : check_machine m ≡ ok
  pub ram_whole : IsValid m.ram
  pub hart : IsWellFormed m.cpu

not_null : (o : Option (List ℕ)) (size : ℕ) → Owns o size → size ≢ 0 → is_null o ≡ false
not_null none size v h = absurd (h v)
not_null (some store) size v h = refl

reached-IsRamOf : (link : Link) (ram : Ram) → IsValid ram → IsRamOf (reached link ram) ram.size
reached-IsRamOf null ram v = tt
reached-IsRamOf own ram v = (v, refl)
reached-IsRamOf other ram v = tt

kept_ram :
    (o : Option Ram) (ram : Ram)
    → IsValid ram
    → IsRamOf o ram.size
    → IsValid (Option.get_or o ram) × ((Option.get_or o ram).size ≡ ram.size)
kept_ram none ram v w = (v, refl)
kept_ram (some ram') ram v w = w

with_bus-checks :
    (m : Machine) (cpu : Cpu) (bus : Bus)
    → check_machine m ≡ ok
    → IsValid (Option.get_or bus.ram m.ram)
    → (Option.get_or bus.ram m.ram).size ≡ m.ram.size
    → check_machine (with_bus m cpu bus) ≡ ok
unfolding check_machine with_bus
with_bus-checks m cpu bus h v s =
    let ram = Option.get_or bus.ram m.ram in
    let present = not_null ram.storage ram.size v in
    let nonzero : ram.size ≢ 0 = ground arith in ground (arith, present nonzero)

-- The machine that the hart's step works on: time has passed and the lines are sampled.
abbrev pub sampled : Machine → Machine
sampled m = (sample_devices (record m { clint = Clint.tick m.clint 1 })).1

sampled_kept :
    (m : Machine)
    → check_machine m ≡ ok
    → (check_machine (sampled m) ≡ ok) × ((sampled m).ram ≡ m.ram) × ((sampled m).cpu ≡ m.cpu)
unfolding sample_devices check_machine
sampled_kept m h = ground arith

sample-ok :
    (m : Machine)
    → check_machine m ≡ ok
    → (sample_devices (record m { clint = Clint.tick m.clint 1 })).0 ≡ ok
unfolding sample_devices check_machine
sample-ok m h = ground arith

step-sampled :
    (m : Machine) (ready : Bool)
    → check_machine m ≡ ok
    → step m ready ≡ (
        let (status, cpu, bus, effects) = Step.step (sampled m).cpu (bus_of (sampled m)) ready in
        (status, with_bus (sampled m) cpu bus, effects))
unfolding step
step-sampled m ready h = rw (h, sample-ok m h) refl

with_bus-IsRunnable :
    (m : Machine) (cpu : Cpu) (bus : Bus)
    → IsRunnable m
    → IsWellFormed cpu
    → IsRamOf bus.ram m.ram.size
    → IsRunnable (with_bus m cpu bus)
unfolding with_bus
with_bus-IsRunnable m cpu bus v w r =
    let k = kept_ram bus.ram m.ram v.ram_whole r in
    record { checks = with_bus-checks m cpu bus v.checks k.0 k.1; ram_whole = k.0; hart = w }

sampled-IsRunnable : (m : Machine) → IsRunnable m → IsRunnable (sampled m)
sampled-IsRunnable m v =
    let s = sampled_kept m v.checks in
    record {
      checks = s.0;
      ram_whole = subst (λ r. IsValid r) (sym s.1) v.ram_whole;
      hart = subst (λ c. IsWellFormed c) (sym s.2) v.hart;
    }

pub step-IsRunnable : (m : Machine) (ready : Bool) → IsRunnable m → IsRunnable (step m ready).1
unfolding bus_of
step-IsRunnable m ready v =
    let s = sampled m in
    let t = sampled-IsRunnable m v in
    let ran = Step.step s.cpu (bus_of s) ready in
    subst (λ r. IsRunnable r.1) (sym (step-sampled m ready v.checks))
      (with_bus-IsRunnable s ran.1 ran.2 t (step-IsWellFormed s.cpu (bus_of s) ready t.hart) (
        step-IsRamOf s.cpu (bus_of s) s.ram.size ready
          (reached-IsRamOf s.bus.ram s.ram t.ram_whole)))

-- The machine after a step for each answer of the UART's backend.
unfoldable pub run : Machine → List Bool → Machine
run m [] = m
run m (ready ∷ answers) = run (step m ready).1 answers

run-IsRunnable : (m : Machine) (answers : List Bool) → IsRunnable m → IsRunnable (run m answers)
unfolding run
run-IsRunnable m [] v = v
run-IsRunnable m (ready ∷ answers) v =
    run-IsRunnable (step m ready).1 answers (step-IsRunnable m ready v)

init_with-IsRunnable :
    (m : Machine) (base size : ℕ) (available : Bool)
    → (init_with m base size available).0 ≡ ok
    → IsRunnable (init_with m base size available).1
init_with-IsRunnable m base size available h =
    let u = init_with-usable m base size available h in
    record { checks = u.0; ram_whole = u.1; hart = u.2 }

-- From an accepted `yan_machine_init_with` on, and for every sequence of answers of the UART's
-- backend, the machine after each cycle still passes the check that its calls begin with, its RAM
-- is whole (its buffer has the machine's size and holds bytes), the register file has 32 entries
-- with x0 zero, and the PC is a multiple of four.
pub boot-run :
    (m : Machine) (base size : ℕ) (available : Bool) (answers : List Bool)
    → (init_with m base size available).0 ≡ ok
    → IsRunnable (run (init_with m base size available).1 answers)
boot-run m base size available answers h =
    run-IsRunnable (init_with m base size available).1 answers
      (init_with-IsRunnable m base size available h)
