-- ===== src/Barrier/Steps.antt =====
-- Runs of requests that take, share and give back leases (revguard/runtime_barrier.py).
use revguard.Base.{
  ℕ, ◌+◌, ◌-◌, ◌≤◌, ◌<◌, ◌≡◌, Bool, true, false, some, lookup, insert, lookup-insert, insert_cases,
  inserted, passed_over, ◌∙◌, arith, ◌==◌, Bool-cases, inl, inr, refl, sym, ap, subst,
}
use revguard.Barrier.{Resource, Lease, Runtime}
use revguard.Barrier.Counts.{is_on, live-insert, live-one}
use revguard.Barrier.Leases.{IsSound}

-- No open handle is in the way of a new one of this mode.
abbrev pub IsFree : Bool → Runtime → Type 0
IsFree exclusive w =
    (k : ℕ) (r : Resource)
    → lookup k w.resources ≡ some r
    → (exclusive ≡ true → r.references ≡ 0) × (r.exclusive ≡ true → r.references ≡ 0)

abbrev pub acquired : Bool → Runtime → Runtime
acquired exclusive w = record {
  resources = insert w.next (record { references = 1; exclusive = exclusive }) w.resources;
  leases =
      insert w.next (record { resource = w.next; exclusive = exclusive; closed = false }) w.leases;
  next = w.next + 1;
}

pub acquired-IsSound :
    (exclusive : Bool) (w : Runtime)
    → IsFree exclusive w
    → IsSound w
    → IsSound (acquired exclusive w)
acquired-IsSound exclusive w free sound =
    let l : Lease = record { resource = w.next; exclusive = exclusive; closed = false } in
    let new : Resource = record { references = 1; exclusive = exclusive } in
    let (no_lease, no_resource) = sound.fresh w.next (omega arith) in
    let ap_resource : (m : Lease)
        → l ≡ m
        → lookup m.resource (insert w.next new w.resources) ≡ some new =
      λ m same.
        subst (λ (x : Lease). lookup x.resource (insert w.next new w.resources) ≡ some new) same
          (inserted w.next new w.resources) in
    record {
      fresh = λ k low. (
        ground (arith, lookup-insert k w.next l w.leases, sound.fresh k),
        ground (arith, lookup-insert k w.next new w.resources, sound.fresh k),
      );
      unused = λ k low. ground (arith, live-insert k w.next l w.leases, sound.unused k);
      counted = λ k r found. ground (
        arith,
        lookup-insert k w.next new w.resources,
        live-insert k w.next l w.leases,
        sound.unused w.next,
        sound.counted k r,
      );
      modes = λ i m found open_lease. elim (insert_cases i w.next l m w.leases found) [
        | inl (here, is_new) ↦ (new, ap_resource m is_new, ap (λ (x : Lease). x.exclusive) is_new)
        | inr (there, old) ↦
            let (r, at_r, mode) = sound.modes i m old open_lease in
            let elsewhere : (m.resource == w.next) ≡ false =
              ground (arith, sound.fresh m.resource) in
            (r, passed_over m.resource w.next new w.resources elsewhere ∙ at_r, mode)
      ];
      alone = λ k j r s at_k at_j whole here there.
          elim (insert_cases k w.next new r w.resources at_k) [
            | inl (k_new, is_r) ↦ elim (insert_cases j w.next new s w.resources at_j) [
              | inl (j_new, is_s) ↦ (ground arith, ground arith)
              | inr (j_old, found) ↦ absurd (ground (arith, free j s))
            ]
            | inr (k_old, found) ↦ absurd (ground (arith, free k r))
          ];
    }

abbrev pub forked : Lease → Resource → Runtime → Runtime
forked l r w = record {
  resources = insert l.resource (record r { references = r.references + 1 }) w.resources;
  leases =
      insert w.next (record { resource = l.resource; exclusive = false; closed = false }) w.leases;
  next = w.next + 1;
}

-- A resource that is there is not a fresh one.
old_resource :
    (w : Runtime) (k : ℕ) (r : Resource) → IsSound w → lookup k w.resources ≡ some r → k < w.next
old_resource w k r sound found = ground (arith, sound.fresh k)

old_lease : (w : Runtime) (i : ℕ) (l : Lease) → IsSound w → lookup i w.leases ≡ some l → i < w.next
old_lease w i l sound found = ground (arith, sound.fresh i)

-- The mode of a resource is not changed by the number of its leases.
still_mode :
    (w : Runtime) (k n : ℕ) (r : Resource) (m : Lease) (s : Resource)
    → lookup k w.resources ≡ some r
    → lookup m.resource w.resources ≡ some s
    → s.exclusive ≡ m.exclusive
    → (t : Resource) × (lookup m.resource (insert k (record r { references = n }) w.resources)
        ≡ some t)
      × (t.exclusive ≡ m.exclusive)
still_mode w k n r m s at_k at_m mode = elim (Bool-cases (m.resource == k)) [
  | inl same ↦ (
    record r { references = n },
    rw (lookup-insert m.resource k (record r { references = n }) w.resources, same) refl,
    ground (arith),
  )
  | inr other ↦
      (s, passed_over m.resource k (record r { references = n }) w.resources other ∙ at_m, mode)
]

pub forked-IsSound :
    (i : ℕ) (l : Lease) (r : Resource) (w : Runtime)
    → lookup i w.leases ≡ some l
    → lookup l.resource w.resources ≡ some r
    → l.closed ≡ false
    → l.exclusive ≡ false
    → IsSound w
    → IsSound (forked l r w)
forked-IsSound i l r w at_i at_r open_l shared sound =
    let new : Lease = record { resource = l.resource; exclusive = false; closed = false } in
    let more : Resource = record r { references = r.references + 1 } in
    let (no_lease, _) = sound.fresh w.next (omega arith) in
    let below = old_resource w l.resource r sound at_r in
    let count = sound.counted l.resource r at_r in
    let on_l : is_on l.resource l ≡ true = ground arith in
    let in_use = live-one l.resource i l w.leases at_i on_l in
    let (r', at_r', mode') = sound.modes i l at_i open_l in
    let not_alone : r.exclusive ≡ false = ground arith in
    record {
      fresh = λ k low. (
        ground (arith, lookup-insert k w.next new w.leases, sound.fresh k),
        ground (arith, lookup-insert k l.resource more w.resources, sound.fresh k),
      );
      unused = λ k low. ground (arith, live-insert k w.next new w.leases, sound.unused k);
      counted = λ k s found. ground (
        arith,
        lookup-insert k l.resource more w.resources,
        live-insert k w.next new w.leases,
        sound.counted k s,
      );
      modes = λ j m found open_m. elim (insert_cases j w.next new m w.leases found) [
        | inl (here, is_new) ↦
            subst
              (λ (x : Lease).
                (t : Resource) × (lookup x.resource (insert l.resource more w.resources) ≡ some t)
                × (t.exclusive ≡ x.exclusive))
              is_new (more, inserted l.resource more w.resources, not_alone)
        | inr (there, old) ↦
            let (s, at_s, mode) = sound.modes j m old open_m in
            still_mode w l.resource (r.references + 1) r m s at_r at_s mode
      ];
      alone = λ k j s t at_k at_j whole here there.
          elim (insert_cases k l.resource more s w.resources at_k) [
            | inl (k_new, is_s) ↦ absurd (ground arith)
            | inr (k_old, found) ↦
                absurd (ground (arith, sound.alone k l.resource s r found at_r whole here))
          ];
    }

abbrev pub given_back : ℕ → Lease → Resource → Runtime → Runtime
given_back i l r w = record w {
  leases = insert i (record l { closed = true }) w.leases;
  resources = insert l.resource (record r { references = r.references - 1 }) w.resources;
}

pub given_back-IsSound :
    (i : ℕ) (l : Lease) (r : Resource) (w : Runtime)
    → lookup i w.leases ≡ some l
    → lookup l.resource w.resources ≡ some r
    → l.closed ≡ false
    → IsSound w
    → IsSound (given_back i l r w)
given_back-IsSound i l r w at_i at_r open_l sound =
    let done : Lease = record l { closed = true } in
    let fewer : Resource = record r { references = r.references - 1 } in
    let below = old_resource w l.resource r sound at_r in
    let lease_below = old_lease w i l sound at_i in
    record {
      fresh = λ k low. (
        ground (arith, lookup-insert k i done w.leases, sound.fresh k),
        ground (arith, lookup-insert k l.resource fewer w.resources, sound.fresh k),
      );
      unused = λ k low. ground (arith, live-insert k i done w.leases, sound.unused k);
      counted = λ k s found. ground (
        arith,
        lookup-insert k l.resource fewer w.resources,
        live-insert k i done w.leases,
        sound.counted k s,
        sound.counted l.resource r at_r,
      );
      modes = λ j m found open_m. elim (insert_cases j i done m w.leases found) [
        | inl (here, is_done) ↦ absurd (ground arith)
        | inr (there, old) ↦
            let (s, at_s, mode) = sound.modes j m old open_m in
            still_mode w l.resource (r.references - 1) r m s at_r at_s mode
      ];
      alone = λ k j s t at_k at_j whole here there.
          let (s0, at_s0, s_mode, s_more) = before k s at_k in
          let (t0, at_t0, t_mode, t_more) = before j t at_j in
          let (single, same) =
            sound.alone k j s0 t0 at_s0 at_t0 (ground arith) (omega arith) (omega arith) in
          (omega arith, same);
    }
  where
    before :
        (k : ℕ) (s : Resource)
        → lookup k (given_back i l r w).resources ≡ some s
        → (s0 : Resource) × (lookup k w.resources ≡ some s0)
          × (s0.exclusive ≡ s.exclusive)
          × (s.references ≤ s0.references)
    before k s at_k =
        elim (insert_cases k l.resource (record r { references = r.references - 1 }) s w.resources
          at_k) [
            | inl (same, is_s) ↦ (
              r,
              subst (λ x. lookup x w.resources ≡ some r) (sym same) at_r,
              ground arith,
              ground arith,
            )
            | inr (other, found) ↦ (s, found, refl, omega arith)
          ]
