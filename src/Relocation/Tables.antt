-- ===== src/Relocation/Tables.antt =====
-- cle/backends/elf/relocation/__init__.py: the class of a relocation, by architecture and type. The
-- other architectures have no table.
use cle.Base.{ℕ, Option, none, ◌==◌, if◌then◌else◌}
use cle.Relocation.Generic.{Class}
use cle.Relocation.X86.{relocation_table_i386, relocation_table_amd64, relocation_table_s390x}
use cle.Relocation.Sparc.{relocation_table_sparc}
use cle.Relocation.Mips.{relocation_table_mips}
use cle.Relocation.Ppc.{relocation_table_ppc}
use cle.Relocation.Ppc64.{relocation_table_ppc64}
use cle.Relocation.Arm64.{relocation_table_arm64}
use cle.Relocation.Arm.{relocation_table_arm}

pub data ArchName : Type 0 where
  amd64 arm_cortex_m arm aarch64 armel armhf x86 mips32 mips64 ppc32 ppc64 s390x : ArchName
  sparc_be_32 another : ArchName

abbrev pub all_relocations : ArchName → ℕ → Option Class
all_relocations amd64 = relocation_table_amd64
all_relocations arm_cortex_m = relocation_table_arm
all_relocations arm = relocation_table_arm
all_relocations aarch64 = relocation_table_arm64
all_relocations armel = relocation_table_arm
all_relocations armhf = relocation_table_arm
all_relocations x86 = relocation_table_i386
all_relocations mips32 = relocation_table_mips
all_relocations mips64 = relocation_table_mips
all_relocations ppc32 = relocation_table_ppc
all_relocations ppc64 = relocation_table_ppc64
all_relocations s390x = relocation_table_s390x
all_relocations sparc_be_32 = relocation_table_sparc
all_relocations another = λ r_type. none

unfoldable pub get_relocation : ArchName → ℕ → Option Class
get_relocation arch r_type = if r_type == 0 then none else all_relocations arch r_type
