-- ===== src/X86/Topology/Legacy.antt =====
-- What leaf 1 and the extended leaves say of a processor for which leaf 0xB is not used.
use mathlib.Core.Path.{subst}
use cpuinfo.Base.Bits.{bit_and_low}
use cpuinfo.X86.BitLength.Least.{bit_length_least}
use cpuinfo.Base.{
  has, ℕ, zero, suc, ◌+◌, ◌-◌, ◌*◌, ◌/◌, ◌%◌, bit_and, Bool, ◌∙◌, sym, ==_iff, if◌then◌else◌, ◌^◌,
  ◌<◌, ◌≤◌, true, false, some, ◌&&◌, ◌==◌, leb, u32, ◌>>>◌, ◌≡◌, refl, arith, Bool-cases, inl, inr,
  ◌⊎◌,
}
use cpuinfo.X86.BitLength.{bit_length, binary_length}
use cpuinfo.X86.Caches.{CpuidRegs}
use cpuinfo.X86.Topology.{
  Topology, count_of_leaf_1, has_htt, has_cmp_legacy, has_x2apic, by_logical_processors, cmp_legacy,
  by_leaf_1, detect_topology,
}

binary_length-le : (k n : ℕ) → binary_length k n ≤ k
unfolding binary_length
binary_length-le zero n = omega arith
binary_length-le (suc k) n = ground (arith, binary_length-le k (n / 2))

bit_length-le : (n : ℕ) → bit_length n ≤ 32
unfolding bit_length
bit_length-le n = ground (arith, binary_length-le 32 (u32 (n + 2 ^ 32 - 1)))

-- So many bits tell `n` things apart, and one bit fewer would not.
abbrev pub Room : ℕ → ℕ → Type 0
Room n bits = (n ≤ 2 ^ bits) × (2 ^ bits < 2 * n)

-- The number of logical processors of leaf 1, and the number of cores of leaf 0x80000008.
abbrev pub logical_count : CpuidRegs → ℕ
logical_count leaf_1 = leaf_1.ebx / 2 ^ 16 % 2 ^ 8

abbrev pub amd_cores : (ℕ → CpuidRegs) → ℕ
amd_cores cpuid = 1 + (cpuid 0x80000008).ecx % 2 ^ 8

-- The bits of threads and those of cores have together room for `n`; or the bits for `n` are fewer than
-- those of cores, and the length of the bits of threads has wrapped around.
abbrev pub Splits : ℕ → Topology → Type 0
Splits n t =
    Room n (t.thread_bits_length + t.core_bits_length)
    ⊎ ((bits : ℕ) × Room n bits
        × (bits < t.core_bits_length)
        × (t.thread_bits_length + t.core_bits_length ≡ bits + 2 ^ 32))

-- The two lengths and offsets are as they were; and those of threads and the offset of cores are.
abbrev pub Same : Topology → Topology → Type 0
Same topology t =
    (t.thread_bits_offset ≡ topology.thread_bits_offset)
    × (t.thread_bits_length ≡ topology.thread_bits_length)
    × (t.core_bits_offset ≡ topology.core_bits_offset)
    × (t.core_bits_length ≡ topology.core_bits_length)

abbrev pub SameThreads : Topology → Topology → Type 0
SameThreads topology t =
    (t.thread_bits_offset ≡ topology.thread_bits_offset)
    × (t.thread_bits_length ≡ topology.thread_bits_length)
    × (t.core_bits_offset ≡ topology.core_bits_offset)

-- What is promised with hyper-threading or without, in the legacy mode of AMD or not, and with leaf
-- 0x80000008 or without, for `n` logical processors and `cores` cores of that leaf.
abbrev pub Promises : Bool → Bool → Bool → ℕ → ℕ → Topology → Topology → Type 0
Promises false amd extended n cores topology t = Same topology t
Promises true true true n cores topology t = SameThreads topology t × Room cores t.core_bits_length
Promises true true false n cores topology t =
    ((n ≡ 0) × Same topology t) ⊎ (SameThreads topology t × Room n t.core_bits_length)
Promises true false extended n cores topology t =
    ((n ≡ 0) × Same topology t)
    ⊎ ((t.thread_bits_offset ≡ topology.thread_bits_offset)
        × (t.core_bits_length ≡ topology.core_bits_length)
        × (t.core_bits_offset ≡ t.thread_bits_length)
        × Splits n t)

split_difference :
    (n cores : ℕ) (t : Topology)
    → 1 ≤ n
    → n < 2 ^ 32
    → cores < 2 ^ 32
    → t.thread_bits_length ≡ u32 (bit_length n + 2 ^ 32 - cores)
    → t.core_bits_length ≡ cores
    → Splits n t
split_difference n cores t some_n small c threads e =
    let room = bit_length_least n some_n small in
    let few = bit_length-le n in
    elim (Bool-cases (leb cores (bit_length n))) [
      | inl h ↦
          let sum : bit_length n ≡ t.thread_bits_length + t.core_bits_length = ground arith in
          inl (subst (Room n) sum room)
      | inr h ↦ inr (bit_length n, room, ground arith, ground arith)
    ]

count-logical_count : (leaf_1 : CpuidRegs) → count_of_leaf_1 leaf_1 ≡ logical_count leaf_1
count-logical_count leaf_1 = bit_and_low 8 (leaf_1.ebx >>> 16)

module _ (fuel : ℕ) (cpuid : ℕ → CpuidRegs) (cpuidex : ℕ → ℕ → CpuidRegs)
    (max_base_index max_extended_index : ℕ) (leaf_1 : CpuidRegs) (topology : Topology)
    (x : (has_x2apic leaf_1 && leb 0xB max_base_index) ≡ false)
    (c : topology.core_bits_length < 2 ^ 32) where
  abbrev Answers : Bool → Bool → Bool → Type 0
  Answers htt amd extended =
      (t : Topology) × (detect_topology fuel cpuid cpuidex max_base_index max_extended_index leaf_1
          topology
        ≡ some t)
      × (t.apic_id ≡ (if htt then leaf_1.ebx / 2 ^ 24 else 0))
      × Promises htt amd extended (logical_count leaf_1) (amd_cores cpuid) topology t

  answers :
      (htt amd extended : Bool)
      → has_htt leaf_1 ≡ htt
      → has_cmp_legacy cpuid max_extended_index ≡ amd
      → leb 0x80000008 max_extended_index ≡ extended
      → Answers htt amd extended
  unfolding detect_topology by_leaf_1 by_logical_processors cmp_legacy
  answers false amd extended h a e =
      (record topology { apic_id = 0 }, rw (x, h) refl, refl, (refl, refl, refl, refl))
  answers true true true h a e =
      let low = bit_and_low 8 (cpuid 0x80000008).ecx in
      let cores : u32 (1 + bit_and (cpuid 0x80000008).ecx 0x000000FF) ≡ amd_cores cpuid =
        omega (arith, low) in
      (
        record topology {
          apic_id = leaf_1.ebx >>> 24;
          core_bits_length = bit_length (amd_cores cpuid);
        },
        rw (x, h, a, e, cores) refl,
        refl,
        ((refl, refl, refl), bit_length_least (amd_cores cpuid) (omega arith) (omega arith)),
      )
  answers true true false h a e = elim (Bool-cases (count_of_leaf_1 leaf_1 == 0)) [
    | inl z ↦
        let none_there : logical_count leaf_1 ≡ 0 =
          sym (count-logical_count leaf_1) ∙ (==_iff _ _).0 z in
        (
          record topology { apic_id = leaf_1.ebx >>> 24 },
          rw (x, h, a, e, z) refl,
          refl,
          inl (none_there, (refl, refl, refl, refl)),
        )
    | inr some_there ↦
        let same = count-logical_count leaf_1 in
        let positive : 1 ≤ logical_count leaf_1 = ground (arith, same) in
        (
          record topology {
            apic_id = leaf_1.ebx >>> 24;
            core_bits_length = bit_length (logical_count leaf_1);
          },
          rw (x, h, a, e, some_there, same) refl,
          refl,
          inr ((refl, refl, refl), bit_length_least (logical_count leaf_1) positive (omega arith)),
        )
  ]
  answers true false extended h a e = elim (Bool-cases (count_of_leaf_1 leaf_1 == 0)) [
    | inl z ↦
        let none_there : logical_count leaf_1 ≡ 0 =
          sym (count-logical_count leaf_1) ∙ (==_iff _ _).0 z in
        (
          record topology { apic_id = leaf_1.ebx >>> 24 },
          rw (x, h, a, z) refl,
          refl,
          inl (none_there, (refl, refl, refl, refl)),
        )
    | inr some_there ↦
        let same = count-logical_count leaf_1 in
        let positive : 1 ≤ logical_count leaf_1 = ground (arith, same) in
        let threads =
          u32 (bit_length (logical_count leaf_1) + 2 ^ 32 - topology.core_bits_length) in
        let t : Topology = record topology {
          apic_id = leaf_1.ebx >>> 24;
          core_bits_offset = threads;
          thread_bits_length = threads;
        } in
        (
          t,
          rw (x, h, a, some_there, same) refl,
          refl,
          inr (
            refl,
            refl,
            refl,
            split_difference (logical_count leaf_1) topology.core_bits_length t positive
                (omega arith) c refl refl,
          ),
        )
  ]

-- Where leaf 0xB is not used, and with a length of the bits of cores in uint32_t: the function returns,
-- and the APIC ID is that of leaf 1 with hyper-threading and 0 without. Without hyper-threading the bits
-- are as they were. In the legacy mode of AMD the bits of cores become just enough for the cores of leaf
-- 0x80000008, or, where that leaf is missing, for the logical processors of leaf 1, and the rest is as it
-- was. Otherwise the length of the bits of cores stays, they start where those of threads end, and the two
-- are together just enough for the logical processors, or these need fewer bits than the cores have, and
-- the length of the bits of threads has wrapped around. Where leaf 1 is asked for the number of logical
-- processors and says 0, the bits are as they were.
pub detect_topology-Promises :
    (fuel : ℕ) (cpuid : ℕ → CpuidRegs) (cpuidex : ℕ → ℕ → CpuidRegs)
    (max_base_index max_extended_index : ℕ) (leaf_1 : CpuidRegs) (topology : Topology)
    → (has leaf_1.ecx 0x00200000 && leb 0xB max_base_index) ≡ false
    → topology.core_bits_length < 2 ^ 32
    → (t : Topology) × (detect_topology fuel cpuid cpuidex max_base_index max_extended_index leaf_1
          topology
        ≡ some t)
      × (t.apic_id ≡ (if has leaf_1.edx 0x10000000 then leaf_1.ebx / 2 ^ 24 else 0))
      × Promises
          (has leaf_1.edx 0x10000000)
          (leb 0x80000001 max_extended_index && has (cpuid 0x80000001).ecx 0x00000002)
          (leb 0x80000008 max_extended_index)
          (logical_count leaf_1)
          (amd_cores cpuid)
          topology
          t
detect_topology-Promises fuel cpuid cpuidex max_base_index max_extended_index leaf_1 topology x c =
    answers fuel cpuid cpuidex max_base_index max_extended_index leaf_1 topology x c _ _ _ refl refl
      refl
