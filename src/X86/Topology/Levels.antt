-- ===== src/X86/Topology/Levels.antt =====
-- The loop over the levels of leaf 0xB, beside a description of what the levels say together.
use cpuinfo.Base.{
  ℕ, zero, suc, ◌+◌, ◌^◌, ◌<◌, ◌≤◌, true, false, Option, none, some, ◌==◌, ==_iff, leb,
  if◌then◌else◌, u32, ◌≡◌, ◌≢◌, refl, ap, ◌∙◌, arith, Bool-cases, inl, inr,
}
use cpuinfo.X86.Caches.{CpuidRegs}
use cpuinfo.X86.Topology.{
  Topology, LevelState, level_type, level_shift, topology_type_smt, topology_type_core, store_level,
  level_step, walk_levels, has_x2apic, by_leaf_1, detect_topology,
}

module _ (leaf_b : ℕ → CpuidRegs) where
  -- The shifts of the levels below `n` together.
  abbrev pub shift_sum : ℕ → ℕ
  shift_sum zero = 0
  shift_sum (suc n) = shift_sum n + level_shift (leaf_b n)

  -- The last level below `n` that has a type.
  abbrev pub last_of_type : ℕ → ℕ → Option ℕ
  last_of_type type zero = none
  last_of_type type (suc n) = if level_type (leaf_b n) == type then some n else last_of_type type n

  -- The bits of a level: those above the levels below it, as many as it shifts.
  abbrev pub offset_of : Option ℕ → ℕ
  offset_of none = 0
  offset_of (some n) = u32 (shift_sum n)

  abbrev pub length_of : Option ℕ → ℕ
  length_of none = 0
  length_of (some n) = level_shift (leaf_b n)

  -- What the levels below `n` say.
  abbrev pub topology_of_levels : ℕ → ℕ → Topology
  topology_of_levels apic_id n = record {
    apic_id = apic_id;
    thread_bits_offset = offset_of (last_of_type topology_type_smt n);
    thread_bits_length = length_of (last_of_type topology_type_smt n);
    core_bits_offset = offset_of (last_of_type topology_type_core n);
    core_bits_length = length_of (last_of_type topology_type_core n);
  }

  -- Subleaf `n` is the first with the type that ends the list.
  pub record EndsAt (n : ℕ) : Type 0 where
    pub is_invalid : level_type (leaf_b n) ≡ 0
    pub valid_before : (k : ℕ) → k < n → level_type (leaf_b k) ≢ 0
    pub in_range : n < 2 ^ 32

  walk_levels-end :
      (fuel : ℕ) (s : LevelState)
      → (level_type (leaf_b s.level) == 0) ≡ true
      → walk_levels leaf_b (suc fuel) s ≡ some (level_step (leaf_b s.level) s)
  unfolding walk_levels
  walk_levels-end fuel s h = rw h refl

  walk_levels-next :
      (fuel : ℕ) (s : LevelState)
      → (level_type (leaf_b s.level) == 0) ≡ false
      → walk_levels leaf_b (suc fuel) s ≡ walk_levels leaf_b fuel (level_step (leaf_b s.level) s)
  unfolding walk_levels
  walk_levels-next fuel s h = rw h refl

  module _ (apic_id : ℕ) (given : ℕ) where
    abbrev apic_after : ℕ → ℕ
    apic_after zero = apic_id
    apic_after (suc n) = (leaf_b n).edx

    -- The variables after the levels below `n`.
    abbrev after : ℕ → LevelState
    after n = record {
      level = u32 n;
      total_shift = u32 (shift_sum n);
      apic_id = apic_after n;
      topology = topology_of_levels given n;
    }

    store_level-after :
        (n : ℕ)
        → store_level (leaf_b n) (u32 (shift_sum n)) (topology_of_levels given n)
          ≡ topology_of_levels given (suc n)
    unfolding store_level
    store_level-after n = ground arith

    level_step-after : (n : ℕ) → level_step (leaf_b n) (after n) ≡ after (suc n)
    unfolding level_step
    level_step-after n =
        let level : u32 (u32 n + 1) ≡ u32 (suc n) = omega arith in
        let total : u32 (u32 (shift_sum n) + level_shift (leaf_b n)) ≡ u32 (shift_sum (suc n)) =
          omega arith in
        let stored = store_level-after n in
        λ i. record {
          level = level i;
          total_shift = total i;
          apic_id = (leaf_b n).edx;
          topology = stored i;
        }

    -- The step at the number of the level, and at the variable that has it.
    step_at : (n : ℕ) → u32 n ≡ n → level_step (leaf_b (u32 n)) (after n) ≡ after (suc n)
    step_at n here = ap (λ (k : ℕ). level_step (leaf_b k) (after n)) here ∙ level_step-after n

    walk_levels-after :
        (fuel n last : ℕ)
        → EndsAt last
        → n ≤ last
        → last < n + fuel
        → walk_levels leaf_b fuel (after n) ≡ some (after (suc last))
    walk_levels-after zero n last e below h = absurd (omega arith)
    walk_levels-after (suc fuel) n last e below h =
        let here : u32 n ≡ n = let small = e.in_range in omega arith in
        elim (Bool-cases (n == last)) [
          | inl at_end ↦
              let same : n ≡ last = (==_iff _ _).0 at_end in
              let ends : (level_type (leaf_b (u32 n)) == 0) ≡ true =
                (==_iff _ _).1
                  (ap (λ (k : ℕ). level_type (leaf_b k)) (here ∙ same) ∙ e.is_invalid) in
              walk_levels-end fuel (after n) ends
              ∙ ap some (step_at n here)
              ∙ ap (λ (k : ℕ). some (after (suc k))) same
          | inr more ↦
              let valid = e.valid_before n (ground arith) in
              let goes_on : (level_type (leaf_b (u32 n)) == 0) ≡ false =
                ap (λ (k : ℕ). level_type (leaf_b k) == 0) here ∙ ground arith in
              walk_levels-next fuel (after n) goes_on
              ∙ ap (walk_levels leaf_b fuel) (step_at n here)
              ∙ walk_levels-after fuel (suc n) last e (ground arith) (omega arith)
        ]

  -- Nothing more is said by the subleaf that ends the list.
  topology_of_levels-end :
      (apic_id last : ℕ)
      → EndsAt last
      → topology_of_levels apic_id (suc last) ≡ topology_of_levels apic_id last
  topology_of_levels-end apic_id last e = let ends = e.is_invalid in ground arith

-- On a processor with x2APIC whose leaf 0xB is there and ends at a subleaf, the loop ends, with any fuel
-- above the number of that subleaf: the bits of the threads and of the cores are those of the last
-- level of the type, above all levels below it, or none; the APIC ID is that of the subleaf that ends
-- the list; and what leaf 1 and the caller said does not matter.
pub detect_topology-levels :
    (fuel : ℕ) (cpuid : ℕ → CpuidRegs) (cpuidex : ℕ → ℕ → CpuidRegs)
    (max_base_index max_extended_index : ℕ) (leaf_1 : CpuidRegs) (topology : Topology) (last : ℕ)
    → has_x2apic leaf_1 ≡ true
    → leb 0xB max_base_index ≡ true
    → EndsAt (cpuidex 0xB) last
    → last < fuel
    → detect_topology fuel cpuid cpuidex max_base_index max_extended_index leaf_1 topology
      ≡ some (topology_of_levels (cpuidex 0xB) (cpuidex 0xB last).edx last)
unfolding detect_topology
detect_topology-levels fuel cpuid cpuidex max_base_index max_extended_index leaf_1 topology last x b
      e h =
    let (after_leaf_1, apic_id) = by_leaf_1 cpuid max_extended_index leaf_1 topology in
    let walked =
      walk_levels-after (cpuidex 0xB) apic_id after_leaf_1.apic_id fuel 0 last e (omega arith)
        (omega arith) in
    let ended = topology_of_levels-end (cpuidex 0xB) (cpuidex 0xB last).edx last e in
    rw (x, b, walked) (ap some ended)
