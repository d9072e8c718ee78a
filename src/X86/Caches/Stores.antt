-- ===== src/X86/Caches/Stores.antt =====
-- src/x86/cache/descriptor.c: what the descriptors of CPUID leaf 2 assign, and to what.
use cpuinfo.Base.{ℕ, Bool, true, false, List, ◌&&◌, ◌||◌, ◌==◌}
use cpuinfo.X86.Caches.{Cache}

-- `struct cpuinfo_tlb`
pub record Tlb : Type 0 where
  pub entries : ℕ
  pub associativity : ℕ
  pub pages : ℕ

-- An initialiser.
abbrev pub plain_tlb : ℕ → ℕ → ℕ → Tlb
plain_tlb entries associativity pages = record {
  entries = entries;
  associativity = associativity;
  pages = pages;
}

abbrev pub page_4kb : ℕ
page_4kb = 0x1000

abbrev pub page_2mb : ℕ
page_2mb = 0x200000

abbrev pub page_4mb : ℕ
page_4mb = 0x400000

abbrev pub page_1gb : ℕ
page_1gb = 0x40000000

-- The pointers to a `struct cpuinfo_tlb` that the function takes.
pub data TlbName : Type 0 where
  itlb_4kb itlb_2mb itlb_4mb dtlb0_4kb dtlb0_2mb dtlb0_4mb dtlb_4kb dtlb_2mb dtlb_4mb dtlb_1gb :
      TlbName
  stlb2_4kb stlb2_2mb stlb2_1gb : TlbName

-- `struct cpuinfo_x86_model_info`
pub record ModelInfo : Type 0 where
  pub model : ℕ
  pub family : ℕ
  pub base_model : ℕ
  pub base_family : ℕ
  pub stepping : ℕ
  pub extended_model : ℕ
  pub extended_family : ℕ
  pub processor_type : ℕ

-- What the code is compiled for, as far as the `#if` lines of the file ask.
pub data Target : Type 0 where
  x86 x86_android x86_64 : Target

-- `CPUINFO_ARCH_X86`, and with `!defined(__ANDROID__)`.
abbrev pub is_x86 : Target → Bool
is_x86 x86 = true
is_x86 x86_android = true
is_x86 x86_64 = false

abbrev pub is_x86_elsewhere : Target → Bool
is_x86_elsewhere x86 = true
is_x86_elsewhere x86_android = false
is_x86_elsewhere x86_64 = false

abbrev pub vendor_intel : ℕ
vendor_intel = 1

abbrev pub vendor_amd : ℕ
vendor_amd = 2

abbrev pub vendor_hygon : ℕ
vendor_hygon = 16

abbrev pub vendor_cyrix : ℕ
vendor_cyrix = 51

abbrev pub vendor_nsc : ℕ
vendor_nsc = 53

abbrev pub is_cyrix_or_nsc : ℕ → Bool
is_cyrix_or_nsc vendor = vendor == vendor_cyrix || vendor == vendor_nsc

-- The condition of descriptor 0x49.
abbrev pub is_model_49 : ℕ → ModelInfo → Bool
is_model_49 vendor model_info =
    vendor == vendor_intel && model_info.model == 0x06 && model_info.family == 0x0F

-- An initialiser; `apic_bits` is left out in all of them, and so 0.
abbrev pub plain_cache : ℕ → ℕ → ℕ → ℕ → ℕ → ℕ → Cache
plain_cache size associativity sets partitions line_size flags = record {
  size = size;
  associativity = associativity;
  sets = sets;
  partitions = partitions;
  line_size = line_size;
  flags = flags;
  apic_bits = 0;
}

-- An assignment: to a member of `cache`, or through a pointer.
pub data Store : Type 0 where
  l1i l1d l2 l3 : Cache → Store
  trace : ℕ → ℕ → Store
  prefetch : ℕ → Store
  tlb : TlbName → Tlb → Store

-- A label of the `switch`, and the assignments up to the `break` that ends them.
abbrev pub Case : Type 0
Case = ℕ × List Store
