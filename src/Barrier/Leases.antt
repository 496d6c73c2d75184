-- ===== src/Barrier/Leases.antt =====
-- An exclusive lease excludes every other one (`RuntimeLease`, `acquire_runtime_lease`,
-- revguard/runtime_barrier.py).
use revguard.Base.{
  ℕ, ◌≤◌, ◌<◌, ◌≡◌, ◌≢◌, Bool, true, false, none, some, List, [], lookup, any, arith, ◌==◌, ==_iff,
  Bool-cases, inl, inr, refl,
}
use revguard.Barrier.{Resource, Lease, Runtime, no_leases}
use revguard.Barrier.Counts.{is_on, live, live-one, live-two}

-- What the system's lock promises: an exclusive lock is given only while no handle is open, a shared
-- one only while no open handle is exclusive.
abbrev pub IsLock : (Bool → List Bool → Bool) → Type 0
IsLock try_lock =
    ((held : List Bool) → try_lock true held ≡ true → held ≡ [])
    × ((held : List Bool) → try_lock false held ≡ true → any (λ b. b) held ≡ false)

-- Identities are fresh, a resource counts its open leases, open leases have an open resource of their
-- mode, and an exclusive resource is the only open one, with one lease.
pub record IsSound (w : Runtime) : Type 0 where
  pub fresh : (k : ℕ) → w.next ≤ k → (lookup k w.leases ≡ none) × (lookup k w.resources ≡ none)
  pub unused : (k : ℕ) → w.next ≤ k → live k w.leases ≡ 0
  pub counted :
      (k : ℕ) (r : Resource) → lookup k w.resources ≡ some r → r.references ≡ live k w.leases
  pub modes :
      (i : ℕ) (l : Lease)
      → lookup i w.leases ≡ some l
      → l.closed ≡ false
      → (r : Resource) × (lookup l.resource w.resources ≡ some r) × (r.exclusive ≡ l.exclusive)
  pub alone :
      (k j : ℕ) (r s : Resource)
      → lookup k w.resources ≡ some r
      → lookup j w.resources ≡ some s
      → r.exclusive ≡ true
      → 0 < r.references
      → 0 < s.references
      → (r.references ≡ 1) × (j ≡ k)

pub start-IsSound : IsSound no_leases
start-IsSound = record {
  fresh = λ k low. (refl, refl);
  unused = λ k low. refl;
  counted = λ k r found. absurd (cc);
  modes = λ i l found open_lease. absurd (cc);
  alone = λ k j r s found other whole here there. absurd (cc);
}

-- Two open leases, one of which is exclusive, are the same.
pub sound_excludes :
    (w : Runtime) (i j : ℕ) (l m : Lease)
    → IsSound w
    → lookup i w.leases ≡ some l
    → lookup j w.leases ≡ some m
    → l.closed ≡ false
    → m.closed ≡ false
    → l.exclusive ≡ true
    → i ≡ j
sound_excludes w i j l m sound at_i at_j open_l open_m whole =
    let (r, at_r, r_mode) = sound.modes i l at_i open_l in
    let (s, at_s, s_mode) = sound.modes j m at_j open_m in
    let on_l : is_on l.resource l ≡ true = ground arith in
    let on_m : is_on m.resource m ≡ true = ground arith in
    let one_r = live-one l.resource i l w.leases at_i on_l in
    let one_s = live-one m.resource j m w.leases at_j on_m in
    let count_r = sound.counted l.resource r at_r in
    let count_s = sound.counted m.resource s at_s in
    let (single, same) =
      sound.alone l.resource m.resource r s at_r at_s (ground arith) (omega arith) (omega arith) in
    elim (Bool-cases (i == j)) [
      | inl equal ↦ (==_iff i j).0 equal
      | inr apart ↦
          let other : i ≢ j = λ e. ground arith in
          let on_m' : is_on l.resource m ≡ true = ground arith in
          let two = live-two l.resource i j l m w.leases other at_i at_j on_l on_m' in
          absurd (omega arith)
    ]
