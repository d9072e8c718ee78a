-- ===== src/X86/Objects/Stores.antt =====
-- The stores for cores, for clusters and for packages, seen from one array.
use cpuinfo.Base.{ℕ, ◌+◌, bit_and, ◌==◌, u32, ◌≡◌, refl, ap, Bool-cases, inl, inr}
use cpuinfo.X86.Objects.{X86Processor, core_apic_mask, package_apic_mask, cluster_apic_mask}
use cpuinfo.X86.Objects.Structs.{CpuinfoCore, CpuinfoCluster, CpuinfoPackage, Fill}
use cpuinfo.X86.Objects.Fill.{store_core, store_cluster, store_package}
use cpuinfo.X86.Objects.Runs.{one_more}
use cpuinfo.X86.Objects.Project.{
  map-modify, map-modify_same, finish_part, core_run, cluster_run, package_run, core_part,
  cluster_part, package_part,
}

-- What the stores for cores, clusters and packages leave alone.
abbrev pub Kept : Fill → Fill → Type 0
Kept s t =
    (t.processor_index ≡ s.processor_index)
    × (t.l1i ≡ s.l1i)
    × (t.l1d ≡ s.l1d)
    × (t.l2 ≡ s.l2)
    × (t.l3 ≡ s.l3)
    × (t.l4 ≡ s.l4)

module _ (x86 : X86Processor) (llc_apic_bits : ℕ) (a : ℕ) where
  abbrev pub core_of : ℕ
  core_of = bit_and a (core_apic_mask x86.topology)

  abbrev pub cluster_of : ℕ
  cluster_of = bit_and a (cluster_apic_mask x86.topology llc_apic_bits)

  abbrev pub package_of : ℕ
  package_of = bit_and a (package_apic_mask x86.topology)

  -- The store for cores.
  pub store_core_lem :
      (s : Fill)
      → Kept s (store_core x86 llc_apic_bits a s)
        × (core_part (store_core x86 llc_apic_bits a s)
            ≡ finish_part s.processor_index core_of (core_part s))
        × (cluster_part (store_core x86 llc_apic_bits a s) ≡ cluster_part s)
        × (package_part (store_core x86 llc_apic_bits a s) ≡ package_part s)
  unfolding store_core
  store_core_lem s = elim (Bool-cases (core_of == s.last_core_id)) [
    | inl e ↦ rw e (
      (refl, refl, refl, refl, refl, refl),
      ap (λ l. record { items = l; index = s.core_index; last_id = s.last_core_id })
          (map-modify core_run
            (λ (c : CpuinfoCore). record c { processor_count = u32 (c.processor_count + 1) })
            one_more (λ c. refl) s.core_index s.cores),
      refl,
      refl,
    )
    | inr e ↦ rw e (
      (refl, refl, refl, refl, refl, refl),
      ap (λ l. record { items = l; index = s.core_index; last_id = core_of })
          (map-modify core_run
            (λ (_ : CpuinfoCore). record {
              processor_start = s.processor_index;
              processor_count = 1;
              core_id = s.core_id;
              cluster = s.cluster_index;
              package_index = s.package_index;
              vendor = x86.vendor;
              uarch = x86.uarch;
              cpuid = x86.cpuid;
            })
            (λ _. (s.processor_index, 1)) (λ c. refl) s.core_index s.cores),
      ap (λ l. record { items = l; index = s.cluster_index; last_id = s.last_cluster_id })
          (map-modify_same cluster_run
            (λ (c : CpuinfoCluster). record c { core_count = u32 (c.core_count + 1) }) (λ c. refl)
            s.cluster_index s.clusters),
      ap (λ l. record { items = l; index = s.package_index; last_id = s.last_package_id })
          (map-modify_same package_run
            (λ (k : CpuinfoPackage). record k { core_count = u32 (k.core_count + 1) }) (λ k. refl)
            s.package_index s.packages),
    )
  ]

  -- The store for clusters.
  pub store_cluster_lem :
      (s : Fill)
      → Kept s (store_cluster x86 llc_apic_bits a s)
        × (core_part (store_cluster x86 llc_apic_bits a s) ≡ core_part s)
        × (cluster_part (store_cluster x86 llc_apic_bits a s)
            ≡ finish_part s.processor_index cluster_of (cluster_part s))
        × (package_part (store_cluster x86 llc_apic_bits a s) ≡ package_part s)
  unfolding store_cluster
  store_cluster_lem s = elim (Bool-cases (cluster_of == s.last_cluster_id)) [
    | inl e ↦ rw e (
      (refl, refl, refl, refl, refl, refl),
      refl,
      ap (λ l. record { items = l; index = s.cluster_index; last_id = s.last_cluster_id })
          (map-modify cluster_run
            (λ (c : CpuinfoCluster). record c { processor_count = u32 (c.processor_count + 1) })
            one_more (λ c. refl) s.cluster_index s.clusters),
      refl,
    )
    | inr e ↦ rw e (
      (refl, refl, refl, refl, refl, refl),
      refl,
      ap (λ l. record { items = l; index = s.cluster_index; last_id = cluster_of })
          (map-modify cluster_run
            (λ (c : CpuinfoCluster). record c {
              processor_start = s.processor_index;
              processor_count = 1;
              core_start = s.core_index;
              cluster_id = s.cluster_id;
              package_index = s.package_index;
              vendor = x86.vendor;
              uarch = x86.uarch;
              cpuid = x86.cpuid;
            })
            (λ _. (s.processor_index, 1)) (λ c. refl) s.cluster_index s.clusters),
      ap (λ l. record { items = l; index = s.package_index; last_id = s.last_package_id })
          (map-modify_same package_run
            (λ (k : CpuinfoPackage). record k { cluster_count = u32 (k.cluster_count + 1) })
            (λ k. refl) s.package_index s.packages),
    )
  ]

  -- The store for packages.
  pub store_package_lem :
      (s : Fill)
      → Kept s (store_package x86 llc_apic_bits a s)
        × (core_part (store_package x86 llc_apic_bits a s) ≡ core_part s)
        × (cluster_part (store_package x86 llc_apic_bits a s) ≡ cluster_part s)
        × (package_part (store_package x86 llc_apic_bits a s)
            ≡ finish_part s.processor_index package_of (package_part s))
  unfolding store_package
  store_package_lem s = elim (Bool-cases (package_of == s.last_package_id)) [
    | inl e ↦ rw e (
      (refl, refl, refl, refl, refl, refl),
      refl,
      refl,
      ap (λ l. record { items = l; index = s.package_index; last_id = s.last_package_id })
          (map-modify package_run
            (λ (k : CpuinfoPackage). record k { processor_count = u32 (k.processor_count + 1) })
            one_more (λ k. refl) s.package_index s.packages),
    )
    | inr e ↦ rw e (
      (refl, refl, refl, refl, refl, refl),
      refl,
      refl,
      ap (λ l. record { items = l; index = s.package_index; last_id = package_of })
          (map-modify package_run
            (λ (k : CpuinfoPackage). record k {
              processor_start = s.processor_index;
              processor_count = 1;
              core_start = s.core_index;
              cluster_start = s.cluster_index;
            })
            (λ _. (s.processor_index, 1)) (λ k. refl) s.package_index s.packages),
    )
  ]
