-- ===== src/PowerService/Held.antt =====
-- The CPU floors of power/Power.cpp: the descriptors of the service against those that the kernel
-- knows, over any calls.
use android_device_meizu_m.Prelude.{
  ℕ, ◌≡◌, refl, sym, ap, ap₂, ◌∙◌, take-le_bytes_all, Bool, true, false, Option, none, some, List,
  [], ◌∷◌, is_some, arith, if_ind, if_case, not, ◌||◌, take, ◌⊎◌, inl, inr,
}
use android_device_meizu_m.PowerService.{Power, System, cpu_boost_floor_khz, no_fds}
use android_device_meizu_m.PowerService.Write.{
  temp_failure_retry, OpenAnswer, no_open, opened, WriteAnswer, NodeIo, is_value, written,
}
use android_device_meizu_m.PowerService.Boost.{
  Cluster, first, second, fd_of, release_fd, release, release_all, floor_bytes, through,
  write_floor, open_floor, acquire, acquire_all, both_held, with_ready, apply_cpu_floor_locked,
  without,
}

-- What the kernel keeps for a descriptor of the service.
abbrev pub entry : Option ℕ → List (ℕ × List ℕ)
entry none = []
entry (some fd) = (fd, floor_bytes) ∷ []

-- The kernel has the descriptors of the service open and no other, each with the whole floor.
abbrev pub Holds : System → Type 0
Holds s =
    (s.nodes.cluster0_freq_min ≡ entry s.power.cpu_floor_fds.cluster0)
    × (s.nodes.cluster1_freq_min ≡ entry s.power.cpu_floor_fds.cluster1)

without_entry : (fd : ℕ) (b : List ℕ) → without fd ((fd, b) ∷ []) ≡ []
without_entry fd b = ground arith

release_fd-Holds :
    (c : Cluster) (fd : Option ℕ) (s : System)
    → fd ≡ fd_of c s.power.cpu_floor_fds
    → Holds s
    → Holds (release_fd c fd s)
release_fd-Holds c none s e h = h
release_fd-Holds first (some fd) s e h =
    (ap (without fd) (h.0 ∙ ap entry (sym e)) ∙ without_entry fd floor_bytes, h.1)
release_fd-Holds second (some fd) s e h =
    (h.0, ap (without fd) (h.1 ∙ ap entry (sym e)) ∙ without_entry fd floor_bytes)

release-Holds : (c : Cluster) (s : System) → Holds s → Holds (release c s)
release-Holds c s h = release_fd-Holds c (fd_of c s.power.cpu_floor_fds) s refl h

release_all-Holds : (s : System) → Holds s → Holds (release_all s)
release_all-Holds s h = release-Holds second (release first s) (release-Holds first s h)

release_fd-none :
    (c : Cluster) (fd : Option ℕ) (s : System)
    → fd ≡ fd_of c s.power.cpu_floor_fds
    → fd_of c (release_fd c fd s).power.cpu_floor_fds ≡ none
release_fd-none c none s e = sym e
release_fd-none first (some fd) s e = refl
release_fd-none second (some fd) s e = refl

release_second-first :
    (fd : Option ℕ) (s : System)
    → (release_fd second fd s).power.cpu_floor_fds.cluster0 ≡ s.power.cpu_floor_fds.cluster0
release_second-first none s = refl
release_second-first (some fd) s = refl

release_all-no_fds : (s : System) → (release_all s).power.cpu_floor_fds ≡ no_fds
release_all-no_fds s =
    let s' = release first s in
    let e0 = release_fd-none first s.power.cpu_floor_fds.cluster0 s refl in
    let e1 = release_fd-none second s'.power.cpu_floor_fds.cluster1 s' refl in
    let e2 = release_second-first s'.power.cpu_floor_fds.cluster1 s' in
    ap
      (λ (o : Option ℕ). record {
        cluster0 = o;
        cluster1 = (release_all s).power.cpu_floor_fds.cluster1;
      })
      (e2 ∙ e0)
    ∙ ap (λ (o : Option ℕ). record { cluster0 = none; cluster1 = o }) e1

through_all : (count : Option ℕ) → is_value count 4 ≡ true → through count ≡ floor_bytes
through_all none h = cc
through_all (some n) h =
    let four : n ≡ 4 = ground arith in
    ap (λ k. take k floor_bytes) four ∙ take-le_bytes_all 4 cpu_boost_floor_khz

closed_again :
    (fd : ℕ) (b : List ℕ) (held : List (ℕ × List ℕ)) → held ≡ [] → without fd ((fd, b) ∷ held) ≡ []
closed_again fd b held e = ap (λ hs. without fd ((fd, b) ∷ hs)) e ∙ without_entry fd b

write_floor-Holds :
    (c : Cluster) (fd : ℕ) (answer : WriteAnswer) (s : System)
    → fd_of c s.power.cpu_floor_fds ≡ none
    → Holds s
    → Holds (write_floor c fd answer s).1
write_floor-Holds first fd answer s e h =
    let empty = h.0 ∙ ap entry e in
    let count = written 4 answer in
    if_case (λ (r : Bool × System). Holds r.1) (is_value count 4)
      (λ t. (ap₂ (λ b held. (fd, b) ∷ held) (through_all count t) empty, h.1))
      (λ _.
        (closed_again fd (through count) s.nodes.cluster0_freq_min empty ∙ ap entry (sym e), h.1))
write_floor-Holds second fd answer s e h =
    let empty = h.1 ∙ ap entry e in
    let count = written 4 answer in
    if_case (λ (r : Bool × System). Holds r.1) (is_value count 4)
      (λ t. (h.0, ap₂ (λ b held. (fd, b) ∷ held) (through_all count t) empty))
      (λ _.
        (h.0, closed_again fd (through count) s.nodes.cluster1_freq_min empty ∙ ap entry (sym e)))

open_floor-Holds :
    (c : Cluster) (o : OpenAnswer) (answer : WriteAnswer) (s : System)
    → fd_of c s.power.cpu_floor_fds ≡ none
    → Holds s
    → Holds (open_floor c o answer s).1
open_floor-Holds c (no_open x) answer s e h = h
open_floor-Holds c (opened fd) answer s e h = write_floor-Holds c fd answer s e h

not_some : (o : Option ℕ) → is_some o ≡ false → o ≡ none
not_some none h = refl
not_some (some x) h = cc

acquire-Holds : (c : Cluster) (io : NodeIo) (s : System) → Holds s → Holds (acquire c io s).1
acquire-Holds c io s h =
    if_case (λ (r : Bool × System). Holds r.1) (is_some (fd_of c s.power.cpu_floor_fds)) (λ _. h)
      (λ f.
        open_floor-Holds c (temp_failure_retry io.opening) (temp_failure_retry io.writing) s
          (not_some _ f) h)

acquire_all-Holds : (io0 io1 : NodeIo) (s : System) → Holds s → Holds (acquire_all io0 io1 s)
acquire_all-Holds io0 io1 s h =
    let h0 = acquire-Holds first io0 s h in
    if_ind Holds (acquire first io0 s).0 (acquire-Holds second io1 (acquire first io0 s).1 h0) h0

-- The service holds both floors or none, those for which the flag asks, and is ready unless it failed.
pub apply_cpu_floor-Holds :
    (active : Bool) (io0 io1 : NodeIo) (s : System)
    → Holds s
    → Holds (apply_cpu_floor_locked active io0 io1 s)
unfolding apply_cpu_floor_locked
apply_cpu_floor-Holds active io0 io1 s h =
    let acquired = acquire_all io0 io1 s in
    let k = acquire_all-Holds io0 io1 s h in
    if_ind Holds (not active) (release_all-Holds s h) (
      if_ind Holds (both_held acquired.power.cpu_floor_fds) k
        (release_all-Holds (with_ready false acquired) k))

-- Both floors or none of them, both only for a boost, and ready unless they are wanted and missing.
pub record IsWhole (active : Bool) (p : Power) : Type 0 where
  pub whole : (p.cpu_floor_fds ≡ no_fds) ⊎ (both_held p.cpu_floor_fds ≡ true)
  pub idle : active ≡ false → p.cpu_floor_fds ≡ no_fds
  pub ready : p.cpu_floor_ready ≡ not active || both_held p.cpu_floor_fds

release_fd-ready :
    (c : Cluster) (fd : Option ℕ) (s : System)
    → (release_fd c fd s).power.cpu_floor_ready ≡ s.power.cpu_floor_ready
release_fd-ready c none s = refl
release_fd-ready first (some fd) s = refl
release_fd-ready second (some fd) s = refl

release_all-ready : (s : System) → (release_all s).power.cpu_floor_ready ≡ s.power.cpu_floor_ready
release_all-ready s =
    release_fd-ready second (release first s).power.cpu_floor_fds.cluster1 (release first s)
    ∙ release_fd-ready first s.power.cpu_floor_fds.cluster0 s

pub apply_cpu_floor-IsWhole :
    (active : Bool) (io0 io1 : NodeIo) (s : System)
    → IsWhole active (apply_cpu_floor_locked active io0 io1 s).power
unfolding apply_cpu_floor_locked
apply_cpu_floor-IsWhole false io0 io1 s = record {
  whole = inl (release_all-no_fds s);
  idle = λ _. release_all-no_fds s;
  ready = refl;
}
apply_cpu_floor-IsWhole true io0 io1 s =
    let acquired = acquire_all io0 io1 s in
    let failed = with_ready false acquired in
    if_case (λ (r : System). IsWhole true r.power) (both_held acquired.power.cpu_floor_fds)
      (λ t. record { whole = inr t; idle = λ h. cc; ready = sym t })
      (λ f. record {
        whole = inl (release_all-no_fds failed);
        idle = λ h. cc;
        ready = release_all-ready failed ∙ ap both_held (sym (release_all-no_fds failed));
      })
