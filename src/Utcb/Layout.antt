-- ===== src/Utcb/Layout.antt =====
-- The constants of the two layouts: the words of `Utcb_data` (include/utcb.hpp), a segment at its
-- first, two 32-bit fields of one word under one name, and the bits of a message transfer descriptor
-- (include/mtd.hpp). A bit with the name of a field is prefixed `mtd_`.
use hedron.Prelude.{ℕ, ◌^◌}

-- sizeof(Utcb_data) / sizeof(mword)
abbrev pub data_words : ℕ
data_words = 80

abbrev pub gpr_acdb : ℕ
gpr_acdb = 2 ^ 0

abbrev pub gpr_bsd : ℕ
gpr_bsd = 2 ^ 1

abbrev pub mtd_rsp : ℕ
mtd_rsp = 2 ^ 2

abbrev pub rip_len : ℕ
rip_len = 2 ^ 3

abbrev pub mtd_rflags : ℕ
mtd_rflags = 2 ^ 4

abbrev pub ds_es : ℕ
ds_es = 2 ^ 5

abbrev pub fs_gs : ℕ
fs_gs = 2 ^ 6

abbrev pub cs_ss : ℕ
cs_ss = 2 ^ 7

abbrev pub mtd_tr : ℕ
mtd_tr = 2 ^ 8

abbrev pub mtd_ldtr : ℕ
mtd_ldtr = 2 ^ 9

abbrev pub mtd_gdtr : ℕ
mtd_gdtr = 2 ^ 10

abbrev pub mtd_idtr : ℕ
mtd_idtr = 2 ^ 11

abbrev pub mtd_cr : ℕ
mtd_cr = 2 ^ 12

abbrev pub mtd_dr : ℕ
mtd_dr = 2 ^ 13

abbrev pub sysenter : ℕ
sysenter = 2 ^ 14

abbrev pub mtd_qual : ℕ
mtd_qual = 2 ^ 15

abbrev pub mtd_ctrl : ℕ
mtd_ctrl = 2 ^ 16

abbrev pub mtd_inj : ℕ
mtd_inj = 2 ^ 17

abbrev pub mtd_sta : ℕ
mtd_sta = 2 ^ 18

abbrev pub mtd_tsc : ℕ
mtd_tsc = 2 ^ 19

abbrev pub efer_pat : ℕ
efer_pat = 2 ^ 20

abbrev pub mtd_pdpte : ℕ
mtd_pdpte = 2 ^ 21

abbrev pub gpr_r8_r15 : ℕ
gpr_r8_r15 = 2 ^ 22

abbrev pub syscall_swapgs : ℕ
syscall_swapgs = 2 ^ 23

abbrev pub mtd_tsc_timeout : ℕ
mtd_tsc_timeout = 2 ^ 24

abbrev pub mtd_vintr : ℕ
mtd_vintr = 2 ^ 26

abbrev pub mtd_eoi : ℕ
mtd_eoi = 2 ^ 27

abbrev pub mtd_tpr : ℕ
mtd_tpr = 2 ^ 28

abbrev pub mtd_tlb : ℕ
mtd_tlb = 2 ^ 30

abbrev pub mtd_fpu : ℕ
mtd_fpu = 2 ^ 31

abbrev pub mtd_word : ℕ
mtd_word = 0

abbrev pub inst_len_word : ℕ
inst_len_word = 1

abbrev pub rip_word : ℕ
rip_word = 2

abbrev pub rflags_word : ℕ
rflags_word = 3

abbrev pub intr_actv_state_word : ℕ
intr_actv_state_word = 4

abbrev pub inj_word : ℕ
inj_word = 5

abbrev pub vect_word : ℕ
vect_word = 6

abbrev pub rax_word : ℕ
rax_word = 7

abbrev pub rcx_word : ℕ
rcx_word = 8

abbrev pub rdx_word : ℕ
rdx_word = 9

abbrev pub rbx_word : ℕ
rbx_word = 10

abbrev pub rsp_word : ℕ
rsp_word = 11

abbrev pub rbp_word : ℕ
rbp_word = 12

abbrev pub rsi_word : ℕ
rsi_word = 13

abbrev pub rdi_word : ℕ
rdi_word = 14

abbrev pub r8_word : ℕ
r8_word = 15

abbrev pub r9_word : ℕ
r9_word = 16

abbrev pub r10_word : ℕ
r10_word = 17

abbrev pub r11_word : ℕ
r11_word = 18

abbrev pub r12_word : ℕ
r12_word = 19

abbrev pub r13_word : ℕ
r13_word = 20

abbrev pub r14_word : ℕ
r14_word = 21

abbrev pub r15_word : ℕ
r15_word = 22

abbrev pub qual_0_word : ℕ
qual_0_word = 23

abbrev pub qual_1_word : ℕ
qual_1_word = 24

abbrev pub ctrl_word : ℕ
ctrl_word = 25

abbrev pub xcr0_word : ℕ
xcr0_word = 26

abbrev pub cr0_word : ℕ
cr0_word = 27

abbrev pub cr2_word : ℕ
cr2_word = 28

abbrev pub cr3_word : ℕ
cr3_word = 29

abbrev pub cr4_word : ℕ
cr4_word = 30

abbrev pub pdpte_0_word : ℕ
pdpte_0_word = 31

abbrev pub pdpte_1_word : ℕ
pdpte_1_word = 32

abbrev pub pdpte_2_word : ℕ
pdpte_2_word = 33

abbrev pub pdpte_3_word : ℕ
pdpte_3_word = 34

abbrev pub cr8_word : ℕ
cr8_word = 35

abbrev pub efer_word : ℕ
efer_word = 36

abbrev pub pat_word : ℕ
pat_word = 37

abbrev pub star_word : ℕ
star_word = 38

abbrev pub lstar_word : ℕ
lstar_word = 39

abbrev pub fmask_word : ℕ
fmask_word = 40

abbrev pub kernel_gs_base_word : ℕ
kernel_gs_base_word = 41

abbrev pub dr7_word : ℕ
dr7_word = 42

abbrev pub sysenter_cs_word : ℕ
sysenter_cs_word = 43

abbrev pub sysenter_rsp_word : ℕ
sysenter_rsp_word = 44

abbrev pub sysenter_rip_word : ℕ
sysenter_rip_word = 45

abbrev pub es_word : ℕ
es_word = 46

abbrev pub cs_word : ℕ
cs_word = 48

abbrev pub ss_word : ℕ
ss_word = 50

abbrev pub ds_word : ℕ
ds_word = 52

abbrev pub fs_word : ℕ
fs_word = 54

abbrev pub gs_word : ℕ
gs_word = 56

abbrev pub ld_word : ℕ
ld_word = 58

abbrev pub tr_word : ℕ
tr_word = 60

abbrev pub gd_word : ℕ
gd_word = 62

abbrev pub id_word : ℕ
id_word = 64

abbrev pub tsc_val_word : ℕ
tsc_val_word = 66

abbrev pub tsc_off_word : ℕ
tsc_off_word = 67

abbrev pub tsc_aux_exc_bitmap_word : ℕ
tsc_aux_exc_bitmap_word = 68

abbrev pub tpr_threshold_word : ℕ
tpr_threshold_word = 69

abbrev pub eoi_bitmap_0_word : ℕ
eoi_bitmap_0_word = 70

abbrev pub eoi_bitmap_1_word : ℕ
eoi_bitmap_1_word = 71

abbrev pub eoi_bitmap_2_word : ℕ
eoi_bitmap_2_word = 72

abbrev pub eoi_bitmap_3_word : ℕ
eoi_bitmap_3_word = 73

abbrev pub vintr_status_word : ℕ
vintr_status_word = 74

abbrev pub cr0_mon_word : ℕ
cr0_mon_word = 75

abbrev pub cr4_mon_word : ℕ
cr4_mon_word = 76

abbrev pub spec_ctrl_word : ℕ
spec_ctrl_word = 77

abbrev pub tsc_timeout_word : ℕ
tsc_timeout_word = 78

abbrev pub exit_word : ℕ
exit_word = 79
