-- ===== src/Header/Tests.antt =====
-- The packing on a concrete task.
use knitting.Base.{◌≡◌, refl}
use knitting.Base.Lanes.{zeros}
use knitting.Header.{Task, set_function_id}

abbrev task : Task
task = record {
  flags_to_host = 0x12345678;
  id = 7;
  type = 2;
  start = 64;
  end_ = 128;
  payload_len = 64;
  slot_buffer = 0xABCDEF12;
  local = zeros;
}

packed : (set_function_id task 0x9999).flags_to_host ≡ 0x12349999
unfolding set_function_id
packed = refl
