-- ===== src/Conn/Opcode.antt =====
-- pxd.h: enum pxd_opcode, and the flags of a request.
use pxmod.Common.{ℕ}

abbrev pub pxd_write : ℕ
pxd_write = 8193

abbrev pub pxd_read : ℕ
pxd_read = 8194

abbrev pub pxd_discard : ℕ
pxd_discard = 8195

abbrev pub pxd_add_code : ℕ
pxd_add_code = 8196

abbrev pub pxd_remove_code : ℕ
pxd_remove_code = 8197

abbrev pub pxd_read_data : ℕ
pxd_read_data = 8198

abbrev pub pxd_update_size_code : ℕ
pxd_update_size_code = 8199

abbrev pub pxd_write_same : ℕ
pxd_write_same = 8200

abbrev pub pxd_add_ext : ℕ
pxd_add_ext = 8201

abbrev pub pxd_get_features : ℕ
pxd_get_features = 8204

abbrev pub pxd_suspend_code : ℕ
pxd_suspend_code = 8206

abbrev pub pxd_resume_code : ℕ
pxd_resume_code = 8207

abbrev pub pxd_failover_to_userspace : ℕ
pxd_failover_to_userspace = 8208

abbrev pub pxd_fallback_to_kernel : ℕ
pxd_fallback_to_kernel = 8209

abbrev pub pxd_export_dev : ℕ
pxd_export_dev = 8210

abbrev pub pxd_flags_flush : ℕ
pxd_flags_flush = 1

abbrev pub pxd_flags_fua : ℕ
pxd_flags_fua = 2

abbrev pub pxd_flags_meta : ℕ
pxd_flags_meta = 4
