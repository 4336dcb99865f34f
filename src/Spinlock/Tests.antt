-- ===== src/Spinlock/Tests.antt =====
-- A CPU that takes the lock while another spins.
use osassignment.Prelude.{ℕ, ◌<◌, ◌≡◌, ◌≢◌, refl, true, false, none, some}
use osassignment.Prelude.Table.{update}
use osassignment.Spinlock.{Cpu, pushcli, popcli, start, disown, unlock}
use osassignment.Spinlock.System.{
  System, outside, spinning, taken, inside, leaving, starts, spins, owns, Reach, boot, next,
}
use osassignment.Spinlock.Lock.{has_lock}
use osassignment.Spinlock.Exclusion.{Reach-exclusive, Reach-NoPanic}

abbrev boot_cpu : ℕ
boot_cpu = 0

abbrev idle : Cpu
idle = record { interrupts = true; ncli = 0; intena = false }

abbrev free : System
free = record {
  lk = record { locked = 0; cpu = none };
  cpus = λ c. idle;
  places = λ c. outside;
  nested = λ c. 0;
}

abbrev started : System
started = record free {
  cpus = update free.cpus 0 (record { interrupts = false; ncli = 1; intena = true });
  places = update free.places 0 spinning;
}

abbrev two_started : System
two_started = record started {
  cpus = update started.cpus 1 (record { interrupts = false; ncli = 1; intena = true });
  places = update started.places 1 spinning;
}

abbrev locked : System
locked = record two_started {
  lk = record { locked = 1; cpu = none };
  places = update two_started.places 0 taken;
}

abbrev owned : System
owned = record locked {
  lk = record { locked = 1; cpu = some 0 };
  places = update locked.places 0 inside;
}

owned-Reach : Reach owned
unfolding start pushcli update
owned-Reach =
    next locked owned
      (next two_started locked
        (next started two_started
          (next free started (boot (λ c. idle) (λ c. refl)) (starts free 0 _ refl refl))
          (starts started 1 _ refl refl))
        (spins two_started 0 refl))
      (owns locked 0 refl)

owned-has_lock : has_lock (owned.places 0) ≡ true
unfolding update
owned-has_lock = refl

Reach-exclusive_example : (boot_cpu ≡ boot_cpu) × ((owned.cpus 0).interrupts ≡ false)
Reach-exclusive_example =
    Reach-exclusive owned boot_cpu boot_cpu owned-Reach owned-has_lock owned-has_lock

Reach-NoPanic_example :
    (owned.places 0 ≡ outside → start 0 owned.lk (owned.cpus 0) ≢ none)
    × (owned.places 0 ≡ inside → disown 0 owned.lk ≢ none)
    × (owned.places 0 ≡ leaving → unlock owned.lk (owned.cpus 0) ≢ none)
    × (0 < owned.nested 0 → popcli (owned.cpus 0) ≢ none)
Reach-NoPanic_example = Reach-NoPanic owned 0 owned-Reach
